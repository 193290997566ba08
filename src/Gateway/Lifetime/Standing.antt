-- ===== src/Gateway/Lifetime/Standing.antt =====
-- crates/wsrx/src/cli/serve.rs: states that stand for a table, and how persisting keeps that.
use lab_stream_gate.Common.{
  ℕ, ◌≤◌, ◌≡◌, refl, sym, ap, subst, ◌∙◌, inl, inr, true, not, Option, none, some, List, ◌==◌,
  if◌then◌else◌, length, ok, err, arith, Option-cases, Bool-cases,
}
use lab_stream_gate.Common.Text.{Text, same}
use lab_stream_gate.Common.Dict.{
  Dict, lookup, insert, remove, retain_values, IsDict, option_keep, lookup-insert, lookup-remove,
  lookup-retain_values, retain_values-IsDict, retain_values-eq_of_length,
}
use lab_stream_gate.Gateway.{TunnelRecord, is_expired, FilePath, GlobalState}
use lab_stream_gate.Gateway.Persist.{
  RegistryJson, ReadOutcome, missing, contents, load_registry, persist_registry, faultless,
  persist_registry-faultless, load_registry-to_vec,
}
use lab_stream_gate.Gateway.Registry.{remove_expired, after_persist}
use lab_stream_gate.Http.{Http}
use lab_stream_gate.Gateway.Registry.Laws.{persist_registry-keeps}
use lab_stream_gate.Gateway.Lifetime.{Table}

-- What is left of a record at a time.
abbrev pub keep : ℕ → Option TunnelRecord → Option TunnelRecord
keep now = option_keep (λ r. not (is_expired r now))

-- What reading the state file gives, when it can be read if it is there.
abbrev pub read_of : Option (List ℕ) → ReadOutcome
read_of none = missing
read_of (some written) = contents written

is_expired_later :
    (r : TunnelRecord) (n t : ℕ) → n ≤ t → is_expired r n ≡ true → is_expired r t ≡ true
unfolding is_expired
is_expired_later r n t l h = elim (Option-cases r.expires_at) [
  | inl z ↦ ground arith
  | inr (e, z) ↦ ground arith
]

pub keep-keep : (n t : ℕ) (o : Option TunnelRecord) → n ≤ t → keep t (keep n o) ≡ keep t o
keep-keep n t none l = refl
keep-keep n t (some r) l = ground (arith, is_expired_later r n t l)

-- The state stands for the table from time `n` on: a key has the same live record in both, and a
-- restart with the file as it is would restore it.
pub record StandsFor (json : RegistryJson) (secret : Text) (allowed : List Text) (path : FilePath)
    (n : ℕ) (s : GlobalState) (table : Table) : Type 0 where
  pub one_entry : IsDict s.connections
  pub named : s.state_file ≡ some path
  pub guarded : s.secret ≡ secret
  pub permitted : s.allowed_target_hosts ≡ allowed
  pub agrees : (k : Text) (t : ℕ) → n ≤ t → keep t (lookup k s.connections) ≡ keep t (table k)
  pub restores :
      (k : Text) (t : ℕ)
      → n ≤ t
      → lookup k (load_registry json t (some path) (read_of s.disk.file))
        ≡ keep t (lookup k s.connections)

pub after_persist_state {ℓ} :
    {A : Type ℓ} (p : GlobalState × Http (Unit {0})) (a : A) → (after_persist p a).0 ≡ p.0
after_persist_state (s, ok u) a = refl
after_persist_state (s, err e) a = refl

module _ (json : RegistryJson) (secret : Text) (allowed : List Text) (path : FilePath) where
  -- An event that changes nothing, and means as much for the table.
  pub StandsFor-later :
      (n now : ℕ) (s : GlobalState) (table after : Table)
      → StandsFor json secret allowed path n s table
      → n ≤ now
      → ((k : Text) (t : ℕ) → now ≤ t → keep t (lookup k s.connections) ≡ keep t (after k))
      → StandsFor json secret allowed path now s after
  StandsFor-later n now s table after h l a = record {
    one_entry = h.one_entry;
    named = h.named;
    guarded = h.guarded;
    permitted = h.permitted;
    agrees = a;
    restores = λ k t u. h.restores k t (omega arith);
  }

  -- An event that sets the registry to `m` and persists it.
  pub StandsFor-persist :
      (n now : ℕ) (s t : GlobalState) (table after : Table) (m : Dict TunnelRecord)
      → StandsFor json secret allowed path n s table
      → IsDict m
      → ((k : Text) (u : ℕ) → now ≤ u → keep u (lookup k m) ≡ keep u (after k))
      → t ≡ (persist_registry json faultless (record s { connections = m })).0
      → ((written : List ℕ) × (json.to_vec t.connections ≡ ok written))
      → StandsFor json secret allowed path now t after
  StandsFor-persist n now s t table after m h d a e (written, v) =
      let (kept, others, _) =
        persist_registry-keeps json faultless (record s { connections = m }) in
      let c : t.connections ≡ m = ap (λ x. x.connections) e ∙ kept in
      let v' : json.to_vec m ≡ ok written = rw c at v in
      let g =
        persist_registry-faultless json (record s { connections = m }) path written h.named v' in
      let saved : GlobalState = record s {
        connections = m;
        disk = record { file = some written; temporary = none };
      } in
      let f : saved ≡ t = sym (e ∙ ap (λ p. p.0) g) in
      subst (λ x. StandsFor json secret allowed path now x after) f
        (record {
          one_entry = d;
          named = h.named;
          guarded = h.guarded;
          permitted = h.permitted;
          agrees = a;
          restores = λ k u l. load_registry-to_vec json m path written u k d v';
        })

  pub StandsFor-remove_expired :
      (n now : ℕ) (s : GlobalState) (table : Table)
      → StandsFor json secret allowed path n s table
      → n ≤ now
      → ((written : List ℕ) × (json.to_vec (remove_expired json faultless now s).connections
            ≡ ok written))
      → StandsFor json secret allowed path now (remove_expired json faultless now s) table
  unfolding remove_expired
  StandsFor-remove_expired n now s table h l w =
      let m = retain_values (λ r. not (is_expired r now)) s.connections in
      let a : (k : Text) (t : ℕ) → now ≤ t → keep t (lookup k m) ≡ keep t (table k) = λ k t u.
        ap (keep t) (lookup-retain_values (λ r. not (is_expired r now)) k s.connections h.one_entry)
        ∙ keep-keep now t (lookup k s.connections) u
        ∙ h.agrees k t (omega arith) in
      elim (Bool-cases (length m == length s.connections)) [
        | inl y ↦
            let e : m ≡ s.connections =
              retain_values-eq_of_length (λ r. not (is_expired r now)) s.connections
                (ground arith) in
            let f : remove_expired json faultless now s ≡ s =
              rw (y, remove_expired) (ap (λ x. record s { connections = x }) e) in
            rw f (StandsFor-later n now s table table h l (λ k t u. h.agrees k t (omega arith)))
        | inr y ↦
            StandsFor-persist n now s (remove_expired json faultless now s) table table m h
              (retain_values-IsDict (λ r. not (is_expired r now)) s.connections h.one_entry) a
              (ground arith) w
      ]

  -- Tables with the same records.
  pub StandsFor-ext :
      (n : ℕ) (s : GlobalState) (table after : Table)
      → ((k : Text) → after k ≡ table k)
      → StandsFor json secret allowed path n s table
      → StandsFor json secret allowed path n s after
  StandsFor-ext n s table after e h =
      StandsFor-later n n s table after h (omega arith)
        (λ k t u. h.agrees k t u ∙ sym (ap (keep t) (e k)))

  -- A record that is bound.
  pub keep-insert :
      (t : ℕ) (j k : Text) (r : TunnelRecord) (m : Dict TunnelRecord) (table : Table)
      → keep t (lookup k m) ≡ keep t (table k)
      → keep t (lookup k (insert j r m)) ≡ keep t (if same j k then some r else table k)
  keep-insert t j k r m table h = elim (Bool-cases (same j k)) [
    | inl y ↦ rw (lookup-insert j k r m, y) refl
    | inr y ↦ rw (lookup-insert j k r m, y) h
  ]

  -- A record that is taken out.
  pub keep-remove :
      (t : ℕ) (j k : Text) (m : Dict TunnelRecord) (table : Table)
      → IsDict m
      → keep t (lookup k m) ≡ keep t (table k)
      → keep t (lookup k (remove j m)) ≡ keep t (if same j k then none else table k)
  keep-remove t j k m table d h = elim (Bool-cases (same j k)) [
    | inl y ↦ rw (lookup-remove j k m d, y) refl
    | inr y ↦ rw (lookup-remove j k m d, y) h
  ]

  -- A key without a record.
  pub keep-absent :
      (t : ℕ) (j k : Text) (m : Dict TunnelRecord) (table : Table)
      → lookup j m ≡ none
      → keep t (lookup k m) ≡ keep t (table k)
      → keep t (lookup k m) ≡ keep t (if same j k then none else table k)
  keep-absent t j k m table z h = elim (Bool-cases (same j k)) [
    | inl y ↦
        let e : j ≡ k = ground arith in let f : lookup k m ≡ none = rw e at z in rw (f, y) refl
    | inr y ↦ rw y h
  ]

  -- A record that has expired and is taken out.
  pub keep-expired :
      (n t : ℕ) (j k : Text) (r : TunnelRecord) (m : Dict TunnelRecord) (table : Table)
      → IsDict m
      → n ≤ t
      → lookup j m ≡ some r
      → is_expired r n ≡ true
      → keep t (lookup k m) ≡ keep t (table k)
      → keep t (lookup k (remove j m)) ≡ keep t (table k)
  keep-expired n t j k r m table d l f x h = elim (Bool-cases (same j k)) [
    | inl y ↦
        let e : j ≡ k = ground arith in
        let g : keep t (lookup k m) ≡ none =
          rw (rw e at f) (ground (arith, is_expired_later r n t l x)) in
        rw (lookup-remove j k m d, y) (sym g ∙ h)
    | inr y ↦ rw (lookup-remove j k m d, y) h
  ]
