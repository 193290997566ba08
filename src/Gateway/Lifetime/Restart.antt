-- ===== src/Gateway/Lifetime/Restart.antt =====
-- crates/wsrx/src/cli/serve.rs: what a restart of the gateway restores, after any history.
use lab_stream_gate.Common.{
  leb, is_empty, ℕ, ◌≤◌, ◌≡◌, refl, sym, ap, ◌∙◌, inl, inr, not, Option, none, some, List, length,
  ok, arith, Option-cases, Bool-cases, Result-cases,
}
use lab_stream_gate.Common.Text.{Text, bytes}
use lab_stream_gate.Common.Dict.{lookup, IsDict, lookup-retain_values, retain_values-IsDict}
use lab_stream_gate.Net.{AddrText}
use lab_stream_gate.Gateway.{is_expired, Disk, FilePath, GlobalState}
use lab_stream_gate.Gateway.Auth.{ConstantTime}
use lab_stream_gate.Gateway.Persist.{RegistryJson, ReadOutcome, load_registry}
use lab_stream_gate.Gateway.Lifetime.{Moment, run_history, Writes, meaning, Passes}
use lab_stream_gate.Gateway.Lifetime.Standing.{keep, read_of, keep-keep, StandsFor}
use lab_stream_gate.Gateway.Lifetime.Events.{StandsFor-run_history}
use lab_stream_gate.Gateway.Launch.{Config, or, started, launch_with, launch}
use lab_stream_gate.Gateway.Validate.{parse_allowed_hosts}

-- A launch that succeeds starts with what it loads, and succeeds whenever it is tried again.
launch-eq_ok :
    (json : RegistryJson) (now : ℕ) (config : Config) (disk : Disk) (read : ReadOutcome)
    (s : GlobalState)
    → launch json now config disk read ≡ ok s
    → (secret : Text) × (hosts : List Text) × (s ≡ started json now config disk read secret hosts)
      × ((later : ℕ) (d : Disk) (r : ReadOutcome)
          → launch json later config d r ≡ ok (started json later config d r secret hosts))
unfolding launch launch_with
launch-eq_ok json now config disk read s h =
    elim (Option-cases (or config.secret (or config.admin_token config.gateway_admin_token))) [
      | inl z ↦ absurd (cc (rw (z, launch) at h))
      | inr (secret, z) ↦
          let hosts = parse_allowed_hosts config.allowed_target_hosts in
          elim (Bool-cases (leb 32 (length (bytes secret)))) [
            | inr n ↦ absurd (cc (rw (z, n, launch, launch_with) at h))
            | inl y ↦ elim (Bool-cases (is_empty hosts)) [
              | inl e ↦ absurd (cc (rw (z, y, e, launch, launch_with) at h))
              | inr e ↦
                  let k : ok (started json now config disk read secret hosts) ≡ ok s =
                    rw (z, y, e, launch, launch_with) at h in
                  (secret, hosts, sym (cc k), λ later d r. rw (z, y, e, launch, launch_with) refl)
            ]
          ]
    ]

-- A registry that has been loaded restores itself from the same file.
load_registry-restores :
    (json : RegistryJson) (path : FilePath) (n t : ℕ) (file : Option (List ℕ)) (k : Text)
    → n ≤ t
    → lookup k (load_registry json t (some path) (read_of file))
      ≡ keep t (lookup k (load_registry json n (some path) (read_of file)))
unfolding load_registry lookup
load_registry-restores json path n t none k l = refl
load_registry-restores json path n t (some written) k l =
    elim (Result-cases (json.from_slice written)) [
      | inr (e, z) ↦ rw (z, load_registry) refl
      | inl (m, z) ↦
          let d = json.from_slice-IsDict written m z in
          let a = lookup-retain_values (λ r. not (is_expired r t)) k m d in
          let b = lookup-retain_values (λ r. not (is_expired r n)) k m d in
          rw (z, load_registry) (a ∙ sym (keep-keep n t (lookup k m) l) ∙ ap (keep t) (sym b))
    ]

load_registry-IsDict :
    (json : RegistryJson) (path : FilePath) (n : ℕ) (file : Option (List ℕ))
    → IsDict (load_registry json n (some path) (read_of file))
unfolding load_registry
load_registry-IsDict json path n none = tt
load_registry-IsDict json path n (some written) = elim (Result-cases (json.from_slice written)) [
  | inr (e, z) ↦ rw (z, load_registry) tt
  | inl (m, z) ↦
      rw (z, load_registry)
        (retain_values-IsDict (λ r. not (is_expired r n)) m (json.from_slice-IsDict written m z))
]

StandsFor-started :
    (json : RegistryJson) (n : ℕ) (config : Config) (disk : Disk) (path : FilePath) (secret : Text)
    (hosts : List Text)
    → config.state_file ≡ some path
    → StandsFor json secret hosts path n
        (started json n config disk (read_of disk.file) secret hosts)
        (λ k. lookup k (started json n config disk (read_of disk.file) secret hosts).connections)
unfolding started
StandsFor-started json n config disk path secret hosts f = record {
  one_entry = rw f (load_registry-IsDict json path n disk.file);
  named = f;
  guarded = refl;
  permitted = refl;
  agrees = λ k t l. refl;
  restores = λ k t l. rw f (load_registry-restores json path n t disk.file k l);
}

-- A gateway with a state file that was launched, has served any history of requests, lookups and
-- clean-ups and is launched again later starts again and then has, for each key, the record that the
-- authorized requests of the history have bound to it last, if it has not expired, as if neither the
-- stop nor the clean-ups had been; if the file can be read whenever it is there, every write to it
-- succeeds, the registry can be serialized after each event, and the clock does not go back.
pub launch-restart :
    (ct : ConstantTime) (net : AddrText) (json : RegistryJson) (config : Config) (path : FilePath)
    (disk : Disk) (first last : ℕ) (history : List Moment) (s : GlobalState)
    → config.state_file ≡ some path
    → launch json first config disk (read_of disk.file) ≡ ok s
    → Passes first history last
    → Writes ct net json history s
    → (t : GlobalState) × (launch json last config
          (run_history ct net json history s).disk
          (read_of (run_history ct net json history s).disk.file)
        ≡ ok t)
      × ((k : Text)
          → lookup k t.connections
            ≡ keep last (
                meaning ct net s.secret s.allowed_target_hosts history
                  (λ j. lookup j s.connections)
                  k))
unfolding started
launch-restart ct net json config path disk first last history s f h p w =
    let (secret, hosts, e, again) = launch-eq_ok json first config disk (read_of disk.file) s h in
    let stopped = run_history ct net json history s in
    let stands : StandsFor json s.secret s.allowed_target_hosts path first s
        (λ j. lookup j s.connections) =
      rw e (StandsFor-started json first config disk path secret hosts f) in
    let after =
      StandsFor-run_history json s.secret s.allowed_target_hosts path ct net first last history s
        (λ j. lookup j s.connections) stands p w in
    let l : last ≤ last = omega arith in
    (
      started json last config stopped.disk (read_of stopped.disk.file) secret hosts,
      again last stopped.disk (read_of stopped.disk.file),
      λ k. rw f (after.restores k last l) ∙ after.agrees k last l,
    )
