-- ===== src/Proxy/Delivery.antt =====
-- The tunnel neither loses, nor repeats, nor reorders bytes, and counts and reports each one.
use lab_stream_gate.Common.{
  ℕ, ◌+◌, ◌%◌, ◌≡◌, refl, sym, ap, subst, ◌∙◌, Option, none, some, List, [], ◌∷◌, ◌++◌, append-nil,
  append_assoc, arith, length, length-append, Result, ok, err,
}
use lab_stream_gate.Proxy.{
  Error, Message, others, TrafficDirection, client_to_target, target_to_client, payload, payloads,
}
use lab_stream_gate.Proxy.Session.{Flow, Log, u64_mod}

-- The bytes that a stream gives before its end or its first error.
unfoldable pub readable : List (Result Error Message) → List ℕ
unfolding payload
readable [] = []
readable (ok m ∷ rest) = payload m ++ readable rest
readable (err e ∷ rest) = []

abbrev pub in_flight : Option Message → List ℕ
in_flight none = []
in_flight (some m) = payload m

-- The bytes that the observer has been told of for the direction.
unfoldable pub observed : TrafficDirection → Log → List ℕ
observed d [] = []
observed client_to_target ((client_to_target, content) ∷ log) =
    content ++ observed client_to_target log
observed client_to_target ((target_to_client, content) ∷ log) = observed client_to_target log
observed target_to_client ((client_to_target, content) ∷ log) = observed target_to_client log
observed target_to_client ((target_to_client, content) ∷ log) =
    content ++ observed target_to_client log

-- For a direction whose stream gives the bytes `all_bytes`: those delivered, then the message that
-- is being sent, then those not yet read make up `all_bytes`; the observer has been told of what was
-- read, and the counter is its length modulo 2^64.
pub record IsFaithful (d : TrafficDirection) (all_bytes : List ℕ) (f : Flow) (log : Log)
    : Type 0 where
  pub whole : payloads f.delivered ++ (in_flight f.sending ++ readable f.incoming) ≡ all_bytes
  pub told : observed d log ≡ payloads f.delivered ++ in_flight f.sending
  pub counted : f.count ≡ length (observed d log) % u64_mod

payloads-append : (ms ns : List Message) → payloads (ms ++ ns) ≡ payloads ms ++ payloads ns
unfolding payloads
payloads-append [] ns = refl
payloads-append (m ∷ ms) ns =
    rw (payloads-append ms ns) (sym (append_assoc (payload m) (payloads ms) (payloads ns)))

observed-same :
    (d : TrafficDirection) (log : Log) (content : List ℕ)
    → observed d (log ++ (d, content) ∷ []) ≡ observed d log ++ content
unfolding observed
observed-same client_to_target [] content = append-nil content
observed-same target_to_client [] content = append-nil content
observed-same client_to_target ((client_to_target, c) ∷ log) content =
    rw (observed-same client_to_target log content) (sym (append_assoc c _ content))
observed-same client_to_target ((target_to_client, c) ∷ log) content =
    observed-same client_to_target log content
observed-same target_to_client ((client_to_target, c) ∷ log) content =
    observed-same target_to_client log content
observed-same target_to_client ((target_to_client, c) ∷ log) content =
    rw (observed-same target_to_client log content) (sym (append_assoc c _ content))

abbrev pub opposite : TrafficDirection → TrafficDirection
opposite client_to_target = target_to_client
opposite target_to_client = client_to_target

observed-opposite :
    (d : TrafficDirection) (log : Log) (content : List ℕ)
    → observed d (log ++ (opposite d, content) ∷ []) ≡ observed d log
unfolding observed
observed-opposite client_to_target [] content = refl
observed-opposite target_to_client [] content = refl
observed-opposite client_to_target ((client_to_target, c) ∷ log) content =
    ap (◌++◌ c) (observed-opposite client_to_target log content)
observed-opposite client_to_target ((target_to_client, c) ∷ log) content =
    observed-opposite client_to_target log content
observed-opposite target_to_client ((client_to_target, c) ∷ log) content =
    observed-opposite target_to_client log content
observed-opposite target_to_client ((target_to_client, c) ∷ log) content =
    ap (◌++◌ c) (observed-opposite target_to_client log content)

-- What one direction reads leaves the other as it is.
pub IsFaithful-opposite :
    (d : TrafficDirection) (all_bytes content : List ℕ) (f : Flow) (log : Log)
    → IsFaithful d all_bytes f log
    → IsFaithful d all_bytes f (log ++ (opposite d, content) ∷ [])
IsFaithful-opposite d all_bytes content f log v = record {
  whole = v.whole;
  told = observed-opposite d log content ∙ v.told;
  counted =
      v.counted ∙ ap (λ (x : List ℕ). length x % u64_mod) (sym (observed-opposite d log content));
}

pub IsFaithful-receive :
    (d : TrafficDirection) (all_bytes content : List ℕ) (f : Flow) (log : Log)
    (rest : List (Result Error Message))
    → IsFaithful d all_bytes f log
    → f.sending ≡ none
    → f.incoming ≡ ok (Message.binary content) ∷ rest
    → IsFaithful d all_bytes
        (record f {
          incoming = rest;
          sending = some (Message.binary content);
          count = (f.count + length content) % u64_mod;
        })
        (log ++ (d, content) ∷ [])
unfolding readable payload
IsFaithful-receive d all_bytes content f log rest v idle head = record {
  whole = ground (arith, v.whole);
  told = observed-same d log content ∙ ground (arith, v.told, append-nil (payloads f.delivered));
  counted =
      ground
        (arith, v.counted, observed-same d log content, length-append (observed d log) content);
}

pub IsFaithful-skip :
    (d : TrafficDirection) (all_bytes : List ℕ) (f : Flow) (log : Log)
    (rest : List (Result Error Message))
    → IsFaithful d all_bytes f log
    → f.sending ≡ none
    → f.incoming ≡ ok others ∷ rest
    → IsFaithful d all_bytes (record f { incoming = rest; sending = some others }) log
unfolding readable payload
IsFaithful-skip d all_bytes f log rest v idle head = record {
  whole = ground (arith, v.whole);
  told = ground (arith, v.told);
  counted = v.counted;
}

pub IsFaithful-sent :
    (d : TrafficDirection) (all_bytes : List ℕ) (f : Flow) (log : Log) (m : Message)
    → IsFaithful d all_bytes f log
    → f.sending ≡ some m
    → IsFaithful d all_bytes (record f { sending = none; delivered = f.delivered ++ m ∷ [] }) log
IsFaithful-sent d all_bytes f log m v busy = record {
  whole =
      rw (done, append_assoc)
        (subst (λ s. payloads f.delivered ++ (in_flight s ++ readable f.incoming) ≡ all_bytes) busy
          v.whole);
  told =
      rw (done, append-nil (payloads f.delivered ++ payload m))
        (subst (λ s. observed d log ≡ payloads f.delivered ++ in_flight s) busy v.told);
  counted = v.counted;
}
  where
    done : payloads (f.delivered ++ m ∷ []) ≡ payloads f.delivered ++ payload m
    done =
        payloads-append f.delivered (m ∷ [])
        ∙ ap (◌++◌ (payloads f.delivered)) (unfold payloads in append-nil (payload m))
