-- ===== src/Gateway/Flush.antt =====
-- What is sent and what stays to be sent.
use r_type_server.Prelude.{
  ℕ, ◌+◌, ◌≡◌, refl, sym, ap, ◌∙◌, Bool, true, false, List, [], ◌∷◌, ◌++◌, Option, none, some,
  arith, length, take, drop, ◌==◌, if◌then◌else◌, take-drop_add, drop_all,
}
use mathlib.Core.List.{append_assoc}
use r_type_server.Wire.{Bytes}
use r_type_server.Gateway.Net.{
  SendBuf, prepare_send_queue, process_send_queue, update_send_buffers, flush,
}

-- The bytes of a list of buffers, and those of a send queue that are not yet sent.
unfoldable pub stream : List Bytes → Bytes
stream [] = []
stream (buf ∷ bufs) = buf ++ stream bufs

unfoldable pub unsent : List SendBuf → Bytes
unsent [] = []
unsent (b ∷ q) = drop b.offset b.bytes ++ unsent q

unsent-prepare : (bufs : List Bytes) → unsent (prepare_send_queue bufs) ≡ stream bufs
unfolding unsent prepare_send_queue stream
unsent-prepare [] = refl
unsent-prepare ([] ∷ bufs) = unsent-prepare bufs
unsent-prepare ((x ∷ buf) ∷ bufs) = ap (λ r. (x ∷ buf) ++ r) (unsent-prepare bufs)

stream-update : (q : List SendBuf) → stream (update_send_buffers q) ≡ unsent q
unfolding unsent update_send_buffers stream
stream-update [] = refl
stream-update (b ∷ q) = ground (arith, stream-update q, drop_all b.offset b.bytes)

-- One call of `send`: the buffer goes on to the next if it is done, and stays otherwise.
unsent_after :
    (c : Bool) (wire : Bytes) (r : List SendBuf × Bytes) (b : SendBuf) (q : List SendBuf)
    → (c ≡ true → drop b.offset b.bytes ≡ [])
    → r.1 ++ unsent r.0 ≡ unsent q
    → (let after : (List SendBuf × Bytes) = (if c then (r.0, wire ++ r.1) else (b ∷ q, wire)) in
        after.1 ++ unsent after.0)
      ≡ wire ++ (drop b.offset b.bytes ++ unsent q)
unfolding unsent
unsent_after true wire r b q empty e =
    rw (empty refl) (append_assoc wire r.1 (unsent r.0) ∙ ap (λ t. wire ++ t) e)
unsent_after false wire r b q empty e = refl

unsent-process :
    (results : List (Option ℕ)) (q : List SendBuf)
    → (process_send_queue results q).1 ++ unsent (process_send_queue results q).0 ≡ unsent q
unfolding unsent process_send_queue
unsent-process results [] = refl
unsent-process [] (b ∷ q) = refl
unsent-process (none ∷ results) (b ∷ q) = refl
unsent-process (some sent ∷ results) (b ∷ q) =
    unsent_after (b.offset + sent == length b.bytes) (take sent (drop b.offset b.bytes))
      (process_send_queue results q) (record b { offset = b.offset + sent }) q
      (λ e. drop_all (b.offset + sent) b.bytes (ground (arith, e))) (unsent-process results q)
    ∙ sym (
        append_assoc (take sent (drop b.offset b.bytes)) (drop (b.offset + sent) b.bytes)
          (unsent q))
    ∙ ap (λ t. t ++ unsent q) (take-drop_add sent b.offset b.bytes)

-- Whatever `send` returns: the bytes that the peer receives, and then those that stay in the buffers, are
-- the bytes that were in the buffers, in their order. None is lost or sent twice.
pub flush-stream :
    (results : List (Option ℕ)) (bufs : List Bytes)
    → (flush results bufs).1 ++ stream (flush results bufs).0 ≡ stream bufs
unfolding flush
flush-stream results bufs =
    ap (λ r. (process_send_queue results (prepare_send_queue bufs)).1 ++ r)
      (stream-update (process_send_queue results (prepare_send_queue bufs)).0)
    ∙ unsent-process results (prepare_send_queue bufs)
    ∙ unsent-prepare bufs
