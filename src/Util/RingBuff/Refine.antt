-- ===== src/Util/RingBuff/Refine.antt =====
-- A ring against the queue of its contents.
use rubo.Base.{
  ℕ, ◌≤◌, ◌<◌, ◌≡◌, refl, ap, ap₂, ◌⊎◌, inl, inr, ◌≢◌, Bool-cases, true, false, List, [], ◌∷◌,
  arith, length, take, ltb, ◌==◌, if◌then◌else◌, le→ltb, lt→ltb, dec_lt, ℕ_discrete,
}
use rubo.Util.RingBuff.{RingBuff, new_ring, step, del_data, read_begin, read_del_begin, add_data}
use rubo.Util.RingBuff.Queue
use rubo.Util.RingBuff.Queue.{Op, adds, deletes, steps, reads, takes, Reply, Fits, AllFit}
use rubo.Util.RingBuff.Span.{contents, IsValid, span}
use rubo.Util.RingBuff.Growth.{data_size-contents}
use rubo.Util.RingBuff.Writes.{Holds, add_data-Holds}
use rubo.Util.RingBuff.Reads.{front_bytes-take, step-Holds, del_data-Holds}

pub new_ring-Holds : Holds [] new_ring
unfolding new_ring span
new_ring-Holds = record {
  valid = record {
    block = refl;
    room = omega arith;
    small = omega arith;
    head_in = omega arith;
    tail_in = omega arith;
  };
  bytes = refl;
}

-- A call of the method that an `Op` stands for.
unfoldable pub call : RingBuff → Op → Reply × RingBuff
call r (adds xs) = ((true, []), add_data r xs)
call r (deletes n) = let (done, r') = del_data r n in ((done, []), r')
call r (steps n) = ((true, []), step r n)
call r (reads n) = (read_begin r n, r)
call r (takes n) = let (done, bytes, r') = read_del_begin r n in ((done, bytes), r')

unfoldable pub run : RingBuff → List Op → List Reply × RingBuff
run r [] = ([], r)
run r (op ∷ ops) = let (a, r') = call r op in let (replies, r'') = run r' ops in (a ∷ replies, r'')

-- A reply of the queue, and a valid ring that holds what the queue holds.
pub record Agrees (spec : Reply × List ℕ) (code : Reply × RingBuff) : Type 0 where
  pub reply : code.0 ≡ spec.0
  pub holds : Holds spec.1 code.1

module _ {r : RingBuff} (v : IsValid r) where
  same : Holds (contents r) r
  same = record { valid = v; bytes = refl }

  pub read_begin_lem :
      (n : ℕ)
      → read_begin r n
        ≡ (if ltb (length (contents r)) n then (false, []) else (true, take n (contents r)))
  unfolding read_begin
  read_begin_lem n = rw ((data_size-contents v).0) (elim (dec_lt (length (contents r)) n) [
    | yes p ↦ rw (lt→ltb _ _ p)
    | no p ↦
        rw (le→ltb (length (contents r)) n (omega arith))
          (ap (λ l. (true, l)) (front_bytes-take v n (omega arith)))
  ])

  not_zero : (n : ℕ) → n ≢ 0 → (n == 0) ≡ false
  not_zero n h = ground arith

  del_data_refused : (n : ℕ) → (length (contents r) < n) ⊎ (n ≡ 0) → del_data r n ≡ (false, r)
  unfolding del_data
  del_data_refused n (inl p) = rw ((data_size-contents v).0, lt→ltb (length (contents r)) n p)
  del_data_refused n (inr z) = rw (z, (data_size-contents v).0) (ground arith)

  -- `del_data` deletes as the queue does, and refuses to delete no byte or more than are held.
  pub del_data_lem : (n : ℕ) → Agrees (Queue.apply (contents r) (deletes n)) (call r (deletes n))
  unfolding Queue.apply call
  del_data_lem n = elim (dec_lt (length (contents r)) n) [
    | yes p ↦
        rw (lt→ltb (length (contents r)) n p, del_data_refused n (inl p))
          (record { reply = refl; holds = same })
    | no p ↦ elim (ℕ_discrete n 0) [
      | yes z ↦
          rw (z, del_data_refused 0 (inr refl), le→ltb (length (contents r)) 0 (omega arith))
            (record { reply = refl; holds = same })
      | no nz ↦
          let h = del_data-Holds v n (omega arith) (omega arith) in
          rw (le→ltb (length (contents r)) n (omega arith), not_zero n nz)
            (record { reply = ap (λ b. (b, [])) h.0; holds = h.1 })
    ]
  ]

  -- `read_del_begin` reads and deletes as the queue does.
  pub read_del_begin_lem : (n : ℕ) → Agrees (Queue.apply (contents r) (takes n)) (call r (takes n))
  unfolding Queue.apply call read_del_begin
  read_del_begin_lem n = rw ((data_size-contents v).0) (elim (dec_lt (length (contents r)) n) [
    | yes p ↦ rw (lt→ltb (length (contents r)) n p) (record { reply = refl; holds = same })
    | no p ↦
        let few : n ≤ length (contents r) = omega arith in
        rw (le→ltb (length (contents r)) n few, front_bytes-take v n few)
          (elim (ℕ_discrete n 0) [
            | yes z ↦ rw (z, del_data_refused 0 (inr refl)) (record { reply = refl; holds = same })
            | no nz ↦
                let h = del_data-Holds v n few (omega arith) in
                rw (not_zero n nz)
                  (record { reply = ap (λ b. (b, take n (contents r))) h.0; holds = h.1 })
          ])
  ])

  call-Agrees : (op : Op) → Fits (contents r) op → Agrees (Queue.apply (contents r) op) (call r op)
  call-Agrees (adds xs) f =
      unfold Queue.apply call in record { reply = refl; holds = add_data-Holds xs v f }
  call-Agrees (deletes n) f = del_data_lem n
  call-Agrees (steps n) f =
      unfold Queue.apply call in record { reply = refl; holds = step-Holds v n f }
  call-Agrees (reads n) f =
      unfold Queue.apply call in
      rw (read_begin_lem n) (elim (Bool-cases (ltb (length (contents r)) n)) [
        | inl e ↦ rw e (record { reply = refl; holds = same })
        | inr e ↦ rw e (record { reply = refl; holds = same })
      ])
  call-Agrees (takes n) f = read_del_begin_lem n

-- Any sequence of calls on a valid ring, in which `step` never passes the end and less than 2^62
-- bytes are held, returns the results and bytes of a queue of bytes, and leaves a valid ring that
-- holds what the queue holds.
pub run_refines :
    (ops : List Op) {r : RingBuff}
    → IsValid r
    → AllFit (contents r) ops
    → ((run r ops).0 ≡ (Queue.run (contents r) ops).0)
      × Holds (Queue.run (contents r) ops).1 (run r ops).1
unfolding run Queue.run
run_refines [] v f = (refl, record { valid = v; bytes = refl })
run_refines (op ∷ ops) {r} v f =
    let a = call-Agrees v op f.0 in
    let rest =
      rw a.holds.bytes at
        (run_refines ops {r = (call r op).1} a.holds.valid (rw a.holds.bytes f.1)) in
    (ap₂ ◌∷◌ a.reply rest.0, rest.1)
