-- ===== src/Util/SocketOp/InOrder.antt =====
-- util/SocketOp.cpp: the order of what several calls of `send` put on the wire.
use rubo.Base.{
  ℕ, zero, suc, ◌+◌, ◌^◌, ◌≤◌, ◌<◌, ◌≡◌, refl, ap, sym, ◌∙◌, ◌⊎◌, inl, inr, true, List, [], ◌∷◌,
  ◌++◌, arith, length, take, slice, if_true, lt→ltb, le→ltb, take_all, take-add, dec_lt,
}
use rubo.Util.RingBuff.Span.{contents, IsValid}
use rubo.Util.RingBuff.Writes.{Holds}
use rubo.Util.SocketNode.{SocketNode, fd_event_none, fd_event_write}
use rubo.Util.SocketOp.{WriteRet, wrote, intr, would_block, broken, Sent, one_len, send_loop, send}
use rubo.Util.SocketOp.Send.{sent_all, kept, broke, IsWhole, send-Outcome}

-- The kernel takes all the bytes, in whole chunks, with interruptions.
abbrev pub IsTaken : ℕ → ℕ → List WriteRet → Type 0
IsTaken len wt_len [] = len ≤ wt_len
IsTaken len wt_len (wrote k ∷ script) =
    (len ≤ wt_len) ⊎ ((k ≡ one_len len wt_len) × IsTaken len (wt_len + one_len len wt_len) script)
IsTaken len wt_len (intr ∷ script) = IsTaken len wt_len script
IsTaken len wt_len (_ ∷ script) = len ≤ wt_len

one_len-positive : (len wt_len : ℕ) → wt_len < len → 0 < one_len len wt_len
unfolding one_len
one_len-positive len wt_len more = ground arith

module _ (bytes : List ℕ) (node : SocketNode) where
  all_sent : Sent
  all_sent = record { wire = bytes; node = node; ret = fd_event_none }

  loop_done :
      (script : List WriteRet) (wt_len : ℕ)
      → length bytes ≤ wt_len
      → send_loop script bytes wt_len node (take wt_len bytes) ≡ all_sent
  unfolding send_loop all_sent
  loop_done [] wt_len done =
      rw (le→ltb wt_len (length bytes) done, send_loop, take_all wt_len bytes done)
  loop_done (r ∷ script) wt_len done =
      rw (le→ltb wt_len (length bytes) done, send_loop, take_all wt_len bytes done)

  send_loop-taken :
      (script : List WriteRet) (wt_len : ℕ)
      → IsTaken (length bytes) wt_len script
      → send_loop script bytes wt_len node (take wt_len bytes) ≡ all_sent
  unfolding send_loop
  send_loop-taken [] wt_len t = loop_done [] wt_len t
  send_loop-taken (wrote zero ∷ script) wt_len t = elim (dec_lt wt_len (length bytes)) [
    | no done ↦ loop_done (wrote zero ∷ script) wt_len (omega arith)
    | yes more ↦ elim t [
      | inl done ↦ absurd (omega arith)
      | inr (e, t') ↦ absurd (omega (arith, e, one_len-positive (length bytes) wt_len more))
    ]
  ]
  send_loop-taken (wrote (suc k) ∷ script) wt_len t = elim (dec_lt wt_len (length bytes)) [
    | no done ↦ loop_done (wrote (suc k) ∷ script) wt_len (omega arith)
    | yes more ↦ elim t [
      | inl done ↦ absurd (omega arith)
      | inr (e, t') ↦
          let n = one_len (length bytes) wt_len in
          let grown : take wt_len bytes ++ slice bytes wt_len (suc k) ≡ take (wt_len + n) bytes =
            ap (λ j. take wt_len bytes ++ slice bytes wt_len j) e
            ∙ sym (take-add (wt_len + n) wt_len n bytes refl) in
          rw (lt→ltb wt_len (length bytes) more, send_loop, grown)
            (send_loop-taken script (wt_len + n) t')
    ]
  ]
  send_loop-taken (intr ∷ script) wt_len t = elim (dec_lt wt_len (length bytes)) [
    | no done ↦ loop_done (intr ∷ script) wt_len (omega arith)
    | yes more ↦ rw (lt→ltb wt_len (length bytes) more, send_loop) (send_loop-taken script wt_len t)
  ]
  send_loop-taken (would_block ∷ script) wt_len t = loop_done (would_block ∷ script) wt_len t
  send_loop-taken (broken ∷ script) wt_len t = loop_done (broken ∷ script) wt_len t

-- If the kernel takes all, all is on the wire and nothing is kept.
pub send-taken :
    (script : List WriteRet) (node : SocketNode) (bytes : List ℕ)
    → node.can_wt ≡ true
    → IsTaken (length bytes) 0 script
    → send script node bytes ≡ record { wire = bytes; node = node; ret = fd_event_none }
unfolding send all_sent
send-taken script node bytes writable t =
    if_true node.can_wt _ _ writable ∙ send_loop-taken bytes node script 0 t

-- A message overtakes the rest of the one before: if the kernel takes whole chunks of the first and
-- then blocks, on a writable connection and with less than 2^31 bytes given and kept, and takes all
-- of the second, then the second is on the wire while a rest of the first, which is not empty, is
-- still kept.
pub send_overtakes :
    (node : SocketNode) (a b : List ℕ) (script_a script_b : List WriteRet)
    → node.can_wt ≡ true
    → IsValid node.wt_buff
    → length (contents node.wt_buff) + length a + 1 < 2 ^ 31
    → IsWhole (length a) 0 script_a
    → (send script_a node a).ret ≡ fd_event_write
    → IsTaken (length b) 0 script_b
    → let s = send script_a node a in
      let t = send script_b s.node b in
      (rest : List ℕ) × (s.wire ++ rest ≡ a)
      × (0 < length rest)
      × (t.wire ≡ b)
      × Holds (contents node.wt_buff ++ rest) t.node.wt_buff
send_overtakes node a b script_a script_b writable v small w blocked t =
    elim (send-Outcome script_a node a writable v small w) [
      | sent_all e _ _ ↦ absurd (cc (e, blocked))
      | broke _ _ e _ _ ↦ absurd (cc (e, blocked))
      | kept rest _ _ wire long holds same ↦
          let next =
            send-taken script_b (send script_a node a).node b (ap (λ n. n.can_wt) same ∙ writable)
              t in
          (rest, wire, long, ap (λ s. s.wire) next, rw next holds)
    ]
