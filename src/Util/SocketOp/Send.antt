-- ===== src/Util/SocketOp/Send.antt =====
-- How a call of `send` can end.
use rubo.Base.{
  ℕ, zero, suc, ◌+◌, ◌-◌, ◌^◌, ◌≤◌, ◌<◌, ◌≡◌, refl, ap, sym, ◌∙◌, true, false, List, [], ◌∷◌, ◌++◌,
  arith, length, take, drop, slice, ltb, if_true, lt→ltb, le→ltb, length-drop, take-append-drop,
  take_all, take-add, length-slice, dec_lt,
}
use rubo.Util.RingBuff.Span.{contents, IsValid}
use rubo.Util.RingBuff.Writes.{Holds, add_data-Holds}
use rubo.Util.SocketNode.{SocketNode, fd_event_none, fd_event_write, fd_event_error}
use rubo.Util.SocketOp.{
  WriteRet, wrote, intr, would_block, broken, Sent, one_len, keep_rest, send_loop, send,
  write_data_max,
}

-- The kernel takes whole chunks, up to an error: what the loop relies on.
abbrev pub IsWhole : ℕ → ℕ → List WriteRet → Type 0
IsWhole len wt_len [] = Unit
IsWhole len wt_len (wrote zero ∷ script) = Unit
IsWhole len wt_len (wrote (suc k) ∷ script) =
    (wt_len < len → suc k ≡ one_len len wt_len) × IsWhole len (wt_len + one_len len wt_len) script
IsWhole len wt_len (intr ∷ script) = IsWhole len wt_len script
IsWhole len wt_len (_ ∷ script) = Unit

-- The first answer that is neither a number of bytes nor EINTR is EAGAIN.
abbrev pub Blocks : List WriteRet → Type 0
Blocks [] = Unit
Blocks (wrote zero ∷ script) = ⊥
Blocks (wrote (suc k) ∷ script) = Blocks script
Blocks (intr ∷ script) = Blocks script
Blocks (would_block ∷ script) = Unit
Blocks (broken ∷ script) = ⊥

-- It is an error, or `write` took 0 bytes.
abbrev pub Breaks : List WriteRet → Type 0
Breaks [] = ⊥
Breaks (wrote zero ∷ script) = Unit
Breaks (wrote (suc k) ∷ script) = Breaks script
Breaks (intr ∷ script) = Breaks script
Breaks (would_block ∷ script) = ⊥
Breaks (broken ∷ script) = Unit

-- All bytes are on the wire; or a rest of them is kept in the ring behind what was there, and the
-- caller is told to wait, as the kernel blocks; or the kernel breaks the connection, with a part of them on the
-- wire and the rest lost.
pub data Outcome (script : List WriteRet) (bytes : List ℕ) (node : SocketNode) (s : Sent)
    : Type 0 where
  sent_all : s.ret ≡ fd_event_none → s.wire ≡ bytes → s.node ≡ node → Outcome script bytes node s
  kept :
      (rest : List ℕ)
      → Blocks script
      → s.ret ≡ fd_event_write
      → s.wire ++ rest ≡ bytes
      → 0 < length rest
      → Holds (contents node.wt_buff ++ rest) s.node.wt_buff
      → s.node ≡ record node { wt_buff = s.node.wt_buff }
      → Outcome script bytes node s
  broke :
      (rest : List ℕ)
      → Breaks script
      → s.ret ≡ fd_event_error
      → s.wire ++ rest ≡ bytes
      → s.node ≡ node
      → Outcome script bytes node s

module _ (bytes : List ℕ) (node : SocketNode) (v : IsValid node.wt_buff)
    (small : length (contents node.wt_buff) + length bytes + 1 < 2 ^ 31) where
  -- The bytes from `wt_len` on.
  keep_rest-Outcome :
      (script : List WriteRet) (wt_len : ℕ)
      → Blocks script
      → wt_len < length bytes
      → Outcome script bytes node (keep_rest bytes wt_len node (take wt_len bytes))
  unfolding keep_rest
  keep_rest-Outcome script wt_len blocks lt =
      let rest = slice bytes wt_len (length bytes - wt_len) in
      let e : rest ≡ drop wt_len bytes =
        take_all (length bytes - wt_len) (drop wt_len bytes)
          (omega (arith, length-drop wt_len bytes)) in
      let l : length rest ≡ length bytes - wt_len =
        length-slice bytes wt_len (length bytes - wt_len) (omega arith) in
      kept rest blocks refl (ap (λ r. take wt_len bytes ++ r) e ∙ take-append-drop wt_len bytes)
        (omega (arith, l)) (add_data-Holds rest v (omega (arith, l))) refl

  -- The test of the loop, before what the kernel answers counts.
  tested :
      (script : List WriteRet) (wt_len : ℕ) (next : Sent)
      → (wt_len < length bytes → Outcome script bytes node next)
      → Outcome script bytes node (elim (ltb wt_len (length bytes)) [
        | false ↦ record { wire = take wt_len bytes; node = node; ret = fd_event_none }
        | true ↦ next
      ])
  tested script wt_len next h = elim (dec_lt wt_len (length bytes)) [
    | yes more ↦ rw (lt→ltb wt_len (length bytes) more) (h more)
    | no done ↦
        rw (le→ltb wt_len (length bytes) (omega arith))
          (sent_all refl (take_all wt_len bytes (omega arith)) refl)
  ]

  -- An answer that does not end the loop.
  also_wrote :
      (script : List WriteRet) (k : ℕ) (s : Sent)
      → Outcome script bytes node s
      → Outcome (wrote (suc k) ∷ script) bytes node s
  also_wrote script k s (sent_all r w n) = sent_all r w n
  also_wrote script k s (kept rest b r w l h n) = kept rest b r w l h n
  also_wrote script k s (broke rest b r w n) = broke rest b r w n

  also_intr :
      (script : List WriteRet) (s : Sent)
      → Outcome script bytes node s
      → Outcome (intr ∷ script) bytes node s
  also_intr script s (sent_all r w n) = sent_all r w n
  also_intr script s (kept rest b r w l h n) = kept rest b r w l h n
  also_intr script s (broke rest b r w n) = broke rest b r w n

  send_loop-Outcome :
      (script : List WriteRet) (wt_len : ℕ)
      → IsWhole (length bytes) wt_len script
      → Outcome script bytes node (send_loop script bytes wt_len node (take wt_len bytes))
  unfolding send_loop
  send_loop-Outcome [] wt_len w = elim (dec_lt wt_len (length bytes)) [
    | yes more ↦ rw (lt→ltb wt_len (length bytes) more) (keep_rest-Outcome [] wt_len tt more)
    | no done ↦
        rw (le→ltb wt_len (length bytes) (omega arith))
          (sent_all refl (take_all wt_len bytes (omega arith)) refl)
  ]
  send_loop-Outcome (wrote (suc k) ∷ script) wt_len w =
      tested (wrote (suc k) ∷ script) wt_len _ λ more.
        let n = one_len (length bytes) wt_len in
        let e : take wt_len bytes ++ slice bytes wt_len (suc k) ≡ take (wt_len + n) bytes =
          ap (λ j. take wt_len bytes ++ slice bytes wt_len j) (w.0 more)
          ∙ sym (take-add (wt_len + n) wt_len n bytes refl) in
        rw e (also_wrote script k _ (send_loop-Outcome script (wt_len + n) w.1))
  send_loop-Outcome (wrote zero ∷ script) wt_len w =
      tested (wrote zero ∷ script) wt_len _
        λ _. broke (drop wt_len bytes) tt refl (take-append-drop wt_len bytes) refl
  send_loop-Outcome (intr ∷ script) wt_len w =
      tested (intr ∷ script) wt_len _ λ _. also_intr script _ (send_loop-Outcome script wt_len w)
  send_loop-Outcome (would_block ∷ script) wt_len w =
      tested (would_block ∷ script) wt_len _ (keep_rest-Outcome (would_block ∷ script) wt_len tt)
  send_loop-Outcome (broken ∷ script) wt_len w =
      tested (broken ∷ script) wt_len _
        λ _. broke (drop wt_len bytes) tt refl (take-append-drop wt_len bytes) refl

send-writable :
    (script : List WriteRet) (node : SocketNode) (bytes : List ℕ)
    → node.can_wt ≡ true
    → send script node bytes ≡ send_loop script bytes 0 node []
unfolding send
send-writable script node bytes writable = if_true node.can_wt _ _ writable

-- If the kernel takes whole chunks, up to an error, and less than 2^31 bytes are given and kept,
-- `send` on a writable connection puts all bytes on the wire and changes nothing; or, only if the
-- first answer that takes nothing and is not EINTR is EAGAIN, it keeps the rest, which is not
-- empty, in the send ring behind what was there and reports that; or, only if this answer is an
-- error or 0 bytes, it reports an error, and the rest is neither on the wire nor kept. The bytes on
-- the wire are the first of those given, in order.
pub send-Outcome :
    (script : List WriteRet) (node : SocketNode) (bytes : List ℕ)
    → node.can_wt ≡ true
    → IsValid node.wt_buff
    → length (contents node.wt_buff) + length bytes + 1 < 2 ^ 31
    → IsWhole (length bytes) 0 script
    → Outcome script bytes node (send script node bytes)
send-Outcome script node bytes writable v small w =
    rw (send-writable script node bytes writable) (send_loop-Outcome bytes node v small script 0 w)

-- A short write loses bytes: on a writable connection, of a message of at most 2048 bytes of which
-- one `write` takes at least one but fewer than all, `send` puts only those on the wire, keeps none
-- of the rest and reports success.
pub send_short :
    (script : List WriteRet) (node : SocketNode) (bytes : List ℕ) (k : ℕ)
    → node.can_wt ≡ true
    → 0 < k
    → k < length bytes
    → length bytes ≤ 2048
    → send (wrote k ∷ script) node bytes
      ≡ record { wire = take k bytes; node = node; ret = fd_event_none }
unfolding send_loop one_len
send_short script node bytes zero writable positive short small = absurd (omega arith)
send_short script node bytes (suc k) writable positive short small =
    send-writable (wrote (suc k) ∷ script) node bytes writable
    ∙ rw
        (
          lt→ltb 0 (length bytes) (omega arith),
          send_loop,
          le→ltb write_data_max (length bytes - 0) (omega arith),
        )
        (done script)
  where
    done :
        (script : List WriteRet)
        → send_loop script bytes (0 + (length bytes - 0)) node (take (suc k) bytes)
          ≡ record { wire = take (suc k) bytes; node = node; ret = fd_event_none }
    done [] = rw (le→ltb (0 + (length bytes - 0)) (length bytes) (omega arith))
    done (a ∷ s) = rw (le→ltb (0 + (length bytes - 0)) (length bytes) (omega arith), send_loop)
