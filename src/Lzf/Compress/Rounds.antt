-- ===== src/Lzf/Compress/Rounds.antt =====
-- A round of the loop of `Compress`, whichever branch it takes.
use golly.Base.{
  ℕ, zero, suc, ◌+◌, ◌-◌, ◌≤◌, ◌<◌, true, false, ◌&&◌, inl, inr, Bool-cases, ◌≡◌, refl, sym, arith,
  Bytes, IsBytes, ltb, leb, leb→lt, ltb→lt, ltb→le, if◌then◌else◌,
}
use mathlib.Core.Path.{subst}
use golly.Base.Calls.{Fuel, read_at-get_or, ok}
use golly.Base.Lists.{length, get_or}
use golly.Lzf.Compress.{
  Packer, Progress, goes_on, gives_nil, put, reference, turn, longest, is_match, slot_of, shift_in,
  max_backref,
}
use golly.Lzf.Compress.Matches.{Same, Found, Tests, is_match-Tests, extend-Same, repeated-Same}
use golly.Lzf.Compress.Steps.{Holds, copy_byte-Copied}
use golly.Lzf.Compress.Turns.{Fresh, Fresh-put, Fresh-le, After}
use golly.Lzf.Compress.References.{Written, write_reference-After}
use golly.Lzf.Compress.Writes.{Open, oidx_closed, Closes, close-Open}

longest_lem :
    (size iidx : ℕ)
    → iidx + 4 < size
    → (longest size iidx ≤ 264) × (iidx + longest size iidx + 2 ≤ size) × (2 < longest size iidx)
longest_lem size iidx h = elim (Bool-cases (ltb max_backref (size - iidx - 2))) [
  | inl t ↦
      rw t
        (let l = ltb→lt max_backref (size - iidx - 2) t in (omega arith, omega arith, omega arith))
  | inr t ↦
      rw t
        (let l = ltb→le max_backref (size - iidx - 2) t in (omega arith, omega arith, omega arith))
]

nil_test :
    (size oidx literal : ℕ)
    → (leb size oidx && leb size (oidx - (if ltb 0 literal then 0 else 1))) ≡ false
    → 0 < oidx
    → oidx_closed oidx literal < size
nil_test size oidx zero h p = ground arith
nil_test size oidx (suc l) h p = ground arith

module _ (input : Bytes) (all_bytes : IsBytes input) where
  written :
      (s : Packer) (backref m : ℕ) (output : Bytes)
      → Fresh s.table (s.iidx + 1)
      → Found input s.iidx backref
      → backref < s.iidx
      → Open input output s.iidx (oidx_closed s.oidx s.literal)
      → oidx_closed s.oidx s.literal < length input
      → 2 < m
      → m ≤ longest (length input) s.iidx
      → Same input backref s.iidx m
      → Written input
          (record s { output = output; oidx = oidx_closed s.oidx s.literal })
          (s.iidx - backref - 1)
          (m - 2)
  written s backref m output fresh found older opened room h k same =
      let (l, i, p) = longest_lem (length input) s.iidx found.inside in
      let d : s.iidx - (s.iidx - backref - 1 + 1) ≡ backref = omega arith in
      let e : m - 2 + 2 ≡ m = omega arith in
      let same' : Same input (s.iidx - (s.iidx - backref - 1 + 1)) s.iidx (m - 2 + 2) =
        rw (d, e) same in
      record {
        all_bytes = all_bytes;
        opened = opened;
        room_left = room;
        some_bytes = omega arith;
        few_bytes = omega arith;
        near = omega (arith, found.near);
        behind = omega arith;
        inside = omega arith;
        same =
            repeated-Same (m - 2 + 2) (s.iidx - backref - 1 + 1) s.iidx input (omega arith)
              (omega arith) (omega arith) same';
        fresh = fresh;
      }

  reference-After :
      (s : Packer) (backref : ℕ)
      → Holds input s
      → Fresh s.table (s.iidx + 1)
      → Found input s.iidx backref
      → backref < s.iidx
      → (p : Progress) × (reference input s backref ≡ ok p) × After input s.iidx p
  unfolding reference After Closes
  reference-After s backref holds fresh found older =
      elim (Bool-cases (
        leb (length input) s.oidx
        && leb (length input) (s.oidx - (if ltb 0 s.literal then 0 else 1)))) [
          | inl t ↦ (gives_nil, rw t refl, tt)
          | inr t ↦
              let (output, c, opened) =
                close-Open input s.output s.iidx s.oidx s.literal all_bytes holds in
              let (l, i, p) = longest_lem (length input) s.iidx found.inside in
              let (m, r, a, b, same) =
                extend-Same max_backref input (longest (length input) s.iidx) backref s.iidx 2 older
                  (omega arith) p (omega arith) found.same in
              let (q, runs, after) =
                write_reference-After input
                  (record s { output = output; oidx = oidx_closed s.oidx s.literal })
                  (s.iidx - backref - 1) (m - 2)
                  (written s backref m output fresh found older opened
                    (nil_test (length input) s.oidx s.literal t (omega (arith, holds.place))) a b
                    same) in
              (q, rw (t, c, r) runs, after)
        ]

  pub turn-After :
      (s : Packer)
      → Holds input s
      → Fresh s.table s.iidx
      → s.iidx + 2 < length input
      → (p : Progress) × (turn input s ≡ ok p) × After input s.iidx p
  unfolding turn After Fresh Tests
  turn-After s holds fresh h =
      let hval : ℕ = shift_in s.hval (get_or input (s.iidx + 2) 0) in
      let slot : ℕ = slot_of hval in
      let s' : Packer = record s { table = put s.table slot s.iidx; hval = hval } in
      let r = read_at-get_or {E = Fuel} input (s.iidx + 2) 0 h in
      let fresh' : Fresh s'.table (s.iidx + 1) =
        Fresh-put s.table slot (s.iidx + 1) s.iidx
          (Fresh-le s.table s.iidx (s.iidx + 1) fresh (omega arith)) (omega arith) in
      let (b, m, tests) = is_match-Tests input s.iidx (s.table slot) (fresh slot) in
      elim b
          as (λ b.
            is_match input s.iidx (s.table slot) ≡ ok b
            → Tests input s.iidx (s.table slot) b
            → (p : Progress) × (turn input s ≡ ok p) × After input s.iidx p) [
              | true ↦ λ m found.
                  let (p, runs, after) =
                    reference-After s' (s.table slot) holds fresh' found
                      (fresh slot found.behind) in
                  (p, rw (r, m) runs, after)
              | false ↦ λ m found. elim (Bool-cases (leb (length input - 4) s.oidx)) [
                | inl t ↦ (gives_nil, rw (r, m, t) refl, tt)
                | inr t ↦
                    let c =
                      copy_byte-Copied input all_bytes s' holds (omega arith)
                        (inl (omega (arith, leb→lt _ _ t))) in
                    (
                      goes_on c.next,
                      rw (r, m, t, c.runs) refl,
                      (
                        c.holds,
                        subst (λ t. Fresh t c.next.iidx) (sym c.table)
                            (subst (Fresh s'.table) (sym c.moved) fresh'),
                        omega (arith, c.moved),
                      ),
                    )
              ]
            ]
        m tests
