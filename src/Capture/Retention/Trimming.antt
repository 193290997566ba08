-- ===== src/Capture/Retention/Trimming.antt =====
-- crates/wsrx/src/cli/capture.rs: what the clean-up of captures leaves.
use lab_stream_gate.Common.{
  ℕ, zero, suc, ◌+◌, ◌-◌, ◌*◌, ◌%◌, ◌≤◌, ◌<◌, ◌≡◌, ◌↔◌, refl, sym, ap, subst, ◌⊎◌, inl, inr, Bool,
  true, false, List, [], ◌∷◌, arith, leb, ltb, drop, retain, All, Bool-cases,
}
use mathlib.Core.List.{Perm}
use mathlib.Core.List.Perm
use lab_stream_gate.Common.Text.{Text}
use lab_stream_gate.Capture.Observer.{u64_mod}
use lab_stream_gate.Capture.Retention.{
  Capture, cutoff, drop_old, insert_by_time, sort_by_time, total_size, drop_excess, cleanup_files,
}

-- The oldest files have been dropped, until the rest is within the limit and no further.
abbrev pub IsTrimmed : ℕ → List Capture → List Capture → Type 0
IsTrimmed limit all left =
    (n : ℕ) × (left ≡ drop n all)
    × (total_size left ≤ limit)
    × ((n ≡ 0) ⊎ ((m : ℕ) × (n ≡ suc m) × (limit < total_size (drop m all))))

drop_excess-within :
    (removable : Text → Bool) (limit total : ℕ) (c : Capture) (cs : List Capture)
    → leb total limit ≡ true
    → drop_excess removable limit total (c ∷ cs) ≡ c ∷ cs
unfolding drop_excess
drop_excess-within removable limit total c cs h = ground arith

drop_excess-above :
    (removable : Text → Bool) (limit : ℕ) (c : Capture) (cs : List Capture)
    → removable c.path ≡ true
    → leb (total_size (c ∷ cs)) limit ≡ false
    → drop_excess removable limit (total_size (c ∷ cs)) (c ∷ cs)
      ≡ drop_excess removable limit (total_size cs) cs
unfolding drop_excess
drop_excess-above removable limit c cs r h =
    let e : c.size + total_size cs - c.size ≡ total_size cs = omega arith in
    rw (h, r) (ap (λ t. drop_excess removable limit t cs) e)

drop_excess-IsTrimmed :
    (removable : Text → Bool) (limit : ℕ) (cs : List Capture)
    → ((p : Text) → removable p ≡ true)
    → IsTrimmed limit cs (drop_excess removable limit (total_size cs) cs)
unfolding drop_excess
drop_excess-IsTrimmed removable limit [] h = (0, refl, omega arith, inl refl)
drop_excess-IsTrimmed removable limit (c ∷ cs) h =
    elim (Bool-cases (leb (total_size (c ∷ cs)) limit)) [
      | inl y ↦
          subst (IsTrimmed limit (c ∷ cs))
            (sym (drop_excess-within removable limit (total_size (c ∷ cs)) c cs y))
            (0, refl, ground arith, inl refl)
      | inr y ↦
          let (n, e, l, m) = drop_excess-IsTrimmed removable limit cs h in
          subst (IsTrimmed limit (c ∷ cs))
            (sym (drop_excess-above removable limit c cs (h c.path) y))
            (suc n, e, l, inr (n, refl, further n m (ground arith)))
    ]
  where
    further :
        (n : ℕ)
        → (n ≡ 0) ⊎ ((m : ℕ) × (n ≡ suc m) × (limit < total_size (drop m cs)))
        → limit < total_size (c ∷ cs)
        → limit < total_size (drop n (c ∷ cs))
    further zero m t = t
    further (suc n) (inl z) t = absurd (omega arith)
    further (suc n) (inr (m, e, l)) t =
        let f : m ≡ n = omega arith in subst (λ k. limit < total_size (drop k cs)) f l

-- The files are in the order of their times.
unfoldable pub IsOrdered : List Capture → Type 0
IsOrdered [] = Unit
IsOrdered (c ∷ cs) = All (λ (d : Capture). c.modified ≤ d.modified) cs × IsOrdered cs

All-insert_by_time :
    (P : Capture → Type 0) (c : Capture) (cs : List Capture)
    → P c
    → All P cs
    → All P (insert_by_time c cs)
unfolding insert_by_time
All-insert_by_time P c [] p h = (p, tt)
All-insert_by_time P c (d ∷ ds) p (q, h) = elim (Bool-cases (leb c.modified d.modified)) [
  | inl y ↦ rw y (p, (q, h))
  | inr y ↦ rw y (q, All-insert_by_time P c ds p h)
]

later-All :
    (m n : ℕ) (cs : List Capture)
    → m ≤ n
    → All (λ (d : Capture). n ≤ d.modified) cs
    → All (λ (d : Capture). m ≤ d.modified) cs
later-All m n [] l h = tt
later-All m n (c ∷ cs) l (p, h) = (omega arith, later-All m n cs l h)

insert_by_time-IsOrdered :
    (c : Capture) (cs : List Capture) → IsOrdered cs → IsOrdered (insert_by_time c cs)
unfolding insert_by_time IsOrdered
insert_by_time-IsOrdered c [] h = (tt, tt)
insert_by_time-IsOrdered c (d ∷ ds) (later, h) = elim (Bool-cases (leb c.modified d.modified)) [
  | inl y ↦
      let l : c.modified ≤ d.modified = ground arith in
      rw y ((l, later-All c.modified d.modified ds l later), (later, h))
  | inr y ↦
      let l : d.modified ≤ c.modified = ground arith in
      rw y (
        All-insert_by_time (λ e. d.modified ≤ e.modified) c ds l later,
        insert_by_time-IsOrdered c ds h,
      )
]

sort_by_time-IsOrdered : (cs : List Capture) → IsOrdered (sort_by_time cs)
unfolding sort_by_time IsOrdered
sort_by_time-IsOrdered [] = tt
sort_by_time-IsOrdered (c ∷ cs) =
    insert_by_time-IsOrdered c (sort_by_time cs) (sort_by_time-IsOrdered cs)

insert_by_time-Perm : (c : Capture) (cs : List Capture) → Perm (insert_by_time c cs) (c ∷ cs)
unfolding insert_by_time
insert_by_time-Perm c [] = Perm.refl (c ∷ [])
insert_by_time-Perm c (d ∷ ds) = elim (Bool-cases (leb c.modified d.modified)) [
  | inl y ↦ rw y (Perm.refl (c ∷ d ∷ ds))
  | inr y ↦ rw y (Perm.trans (Perm.cons d (insert_by_time-Perm c ds)) (Perm.swap c d ds))
]

sort_by_time-Perm : (cs : List Capture) → Perm (sort_by_time cs) cs
unfolding sort_by_time
sort_by_time-Perm [] = Perm.refl []
sort_by_time-Perm (c ∷ cs) =
    Perm.trans (insert_by_time-Perm c (sort_by_time cs)) (Perm.cons c (sort_by_time-Perm cs))

total_size-insert_by_time :
    (c : Capture) (cs : List Capture) → total_size (insert_by_time c cs) ≡ c.size + total_size cs
unfolding insert_by_time
total_size-insert_by_time c [] = refl
total_size-insert_by_time c (d ∷ ds) = elim (Bool-cases (leb c.modified d.modified)) [
  | inl y ↦ rw y refl
  | inr y ↦ rw y (omega (arith, total_size-insert_by_time c ds))
]

total_size-sort_by_time : (cs : List Capture) → total_size (sort_by_time cs) ≡ total_size cs
unfolding sort_by_time
total_size-sort_by_time [] = refl
total_size-sort_by_time (c ∷ cs) =
    omega (arith, total_size-insert_by_time c (sort_by_time cs), total_size-sort_by_time cs)

-- Changed less than the days of the retention ago, or just so many.
abbrev pub is_recent : ℕ → ℕ → Capture → Bool
is_recent now retention_days c = leb now (c.modified + retention_days * 86400000000000)

cutoff_iff :
    (now retention_days modified : ℕ)
    → now ≤ (u64_mod - 1) * 1000000000
    → (cutoff now retention_days ≤ modified) ↔ (now ≤ modified + retention_days * 86400000000000)
unfolding cutoff
cutoff_iff now retention_days modified l = (λ h. omega arith, λ h. omega arith)

drop_old-is_recent :
    (removable : Text → Bool) (now retention_days : ℕ) (files : List Capture)
    → ((p : Text) → removable p ≡ true)
    → now ≤ (u64_mod - 1) * 1000000000
    → drop_old removable (cutoff now retention_days) files
      ≡ retain (is_recent now retention_days) files
unfolding drop_old
drop_old-is_recent removable now retention_days [] h l = refl
drop_old-is_recent removable now retention_days (c ∷ cs) h l =
    let ih = drop_old-is_recent removable now retention_days cs h l in
    elim (Bool-cases (ltb c.modified (cutoff now retention_days))) [
      | inl y ↦
          let g : c.modified < cutoff now retention_days = ground (arith, y) in
          let f : ¬ (now ≤ c.modified + retention_days * 86400000000000) =
            λ k. let m = (cutoff_iff now retention_days c.modified l).1 k in omega arith in
          let z : is_recent now retention_days c ≡ false = ground (arith, f) in
          rw (y, h c.path, z) ih
      | inr y ↦
          let g : cutoff now retention_days ≤ c.modified = ground (arith, y) in
          let f = (cutoff_iff now retention_days c.modified l).0 g in
          let z : is_recent now retention_days c ≡ true = ground (arith, f) in
          rw (y, z) (ap (◌∷◌ c) ih)
    ]

-- Where every removal succeeds, the clock shows no more seconds than 64 bits hold and the recent files
-- have less than 2^64 bytes in all, the clean-up
-- leaves, of the files changed within the days of the retention, in the order of their times, all but
-- the oldest ones: it drops these until the rest is within the limit, and no more than that takes.
pub cleanup_files-IsTrimmed :
    (removable : Text → Bool) (now retention_days max_total_bytes : ℕ) (files : List Capture)
    → ((p : Text) → removable p ≡ true)
    → now ≤ (u64_mod - 1) * 1000000000
    → total_size (retain (is_recent now retention_days) files) < u64_mod
    → (young : List Capture) × Perm young (retain (is_recent now retention_days) files)
      × IsOrdered young
      × IsTrimmed max_total_bytes young
          (cleanup_files removable now retention_days max_total_bytes files)
unfolding cleanup_files
cleanup_files-IsTrimmed removable now retention_days max_total_bytes files h l small =
    let recent = retain (is_recent now retention_days) files in
    let young = sort_by_time recent in
    let d = drop_old-is_recent removable now retention_days files h l in
    let t = total_size-sort_by_time recent in
    let e : total_size young % u64_mod ≡ total_size young = omega (arith, t, small) in
    let left : IsTrimmed max_total_bytes young
        (drop_excess removable max_total_bytes (total_size young % u64_mod) young) =
      subst (λ t. IsTrimmed max_total_bytes young (drop_excess removable max_total_bytes t young))
        (sym e) (drop_excess-IsTrimmed removable max_total_bytes young h) in
    (young, sort_by_time-Perm recent, sort_by_time-IsOrdered recent, rw d left)
