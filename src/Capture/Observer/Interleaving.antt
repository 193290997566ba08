-- ===== src/Capture/Observer/Interleaving.antt =====
-- The limit on captured bytes under every interleaving of calls of `observe`.
use lab_stream_gate.Common.{
  ◌⊎◌, inl, inr, Bool-cases, ℕ, zero, suc, ltb, if◌then◌else◌, ◌+◌, ◌-◌, ◌≤◌, ◌<◌, ◌≡◌, refl, ap,
  true, false, none, some, List, [], ◌∷◌, ◌++◌, arith, min, length, take, length-take,
}
use lab_stream_gate.Proxy.{TrafficDirection}
use lab_stream_gate.Capture.Pcap.{Timestamp, CaptureMessage, packet, finish}
use lab_stream_gate.Capture.Observer.{
  u64_mod, CaptureObserver, reserve, exchange, set_truncated, commit, give_back,
}

abbrev size_of : CaptureMessage → ℕ
size_of (packet d content t) = length content
size_of finish = 0

-- The bytes in the messages.
abbrev pub total_size : List CaptureMessage → ℕ
total_size [] = 0
total_size (m ∷ ms) = size_of m + total_size ms

-- Where a call stands that has left its loop: its packet was cut and the flag is to be set, then it is
-- to be sent; it is to be sent; the channel has refused it and its bytes are to be given back; or
-- nothing is left but to set the flag.
pub data Call : Type 0 where
  is_cut waiting refused : CaptureMessage → Call
  flag_due : Call

-- The bytes that a call has reserved.
abbrev pub held : Call → ℕ
held (is_cut m) = size_of m
held (waiting m) = size_of m
held (refused m) = size_of m
held flag_due = 0

-- One for a call that has lost bytes, or dropped some of its packet, and has not set the flag yet.
abbrev pub due : Call → ℕ
due (is_cut m) = 1
due (waiting m) = 0
due (refused m) = 0
due flag_due = 1

abbrev pub sum_of : (Call → ℕ) → List Call → ℕ
sum_of f [] = 0
sum_of f (c ∷ cs) = f c + sum_of f cs

-- The observer, the calls that are under way behind their loops, and the number of bytes that such
-- calls and those that have returned were given.
pub record Shared : Type 0 where
  pub observer : CaptureObserver
  pub calls : List Call
  pub seen : ℕ

-- An atomic step of some call: its loop ends since the limit is reached, or by an exchange at the
-- value that the counter has; it stores the flag for a packet that is cut; the channel takes or refuses
-- its packet; it gives its bytes back; or it stores the flag and returns.
pub data Step : Shared → Shared → Type 0 where
  finds_full :
      (s : Shared) (content : List ℕ) (already : ℕ) (failures : List ℕ)
      → reserve s.observer.max_bytes (length content) already failures ≡ none
      → Step s (record s { calls = flag_due ∷ s.calls; seen = s.seen + length content })
  reserves :
      (s : Shared) (d : TrafficDirection) (content : List ℕ) (now : Timestamp)
      (already reserved : ℕ) (failures : List ℕ)
      → reserve s.observer.max_bytes (length content) already failures
        ≡ some (reserved, s.observer.captured)
      → Step s (record s {
        observer = exchange reserved s.observer;
        calls =
            (if ltb reserved (length content)
              then is_cut (packet d (take reserved content) now)
              else waiting (packet d (take reserved content) now))
            ∷ s.calls;
        seen = s.seen + length content;
      })
  marks :
      (s : Shared) (before after : List Call) (m : CaptureMessage)
      → s.calls ≡ before ++ is_cut m ∷ after
      → Step s
          (record s { observer = set_truncated s.observer; calls = before ++ waiting m ∷ after })
  is_taken :
      (s : Shared) (before after : List Call) (m : CaptureMessage)
      → s.calls ≡ before ++ waiting m ∷ after
      → Step s (record s { observer = commit m s.observer; calls = before ++ after })
  is_refused :
      (s : Shared) (before after : List Call) (m : CaptureMessage)
      → s.calls ≡ before ++ waiting m ∷ after
      → Step s (record s { calls = before ++ refused m ∷ after })
  gives_back :
      (s : Shared) (before after : List Call) (m : CaptureMessage)
      → s.calls ≡ before ++ refused m ∷ after
      → Step s (record s {
        observer = give_back (size_of m) s.observer;
        calls = before ++ flag_due ∷ after;
      })
  returns :
      (s : Shared) (before after : List Call)
      → s.calls ≡ before ++ flag_due ∷ after
      → Step s (record s { observer = set_truncated s.observer; calls = before ++ after })

pub data Reach (s : Shared) : Shared → Type 0 where
  here : Reach s s
  next : {t u : Shared} → Reach s t → Step t u → Reach s u

-- The counter is the number of bytes sent or reserved by calls under way, it is within the limit, and
-- unless the flag is set or about to be, those are all the bytes that were observed.
pub record IsBounded (limit : ℕ) (s : Shared) : Type 0 where
  same_limit : s.observer.max_bytes ≡ limit
  pub counted : s.observer.captured ≡ total_size s.observer.sent + sum_of held s.calls
  pub within : s.observer.captured ≤ limit
  complete : s.observer.truncated ≡ false → sum_of due s.calls ≡ 0 → s.observer.captured ≡ s.seen

total_size-append :
    (ms ns : List CaptureMessage) → total_size (ms ++ ns) ≡ total_size ms + total_size ns
total_size-append [] ns = omega arith
total_size-append (m ∷ ms) ns = omega (arith, total_size-append ms ns)

sum_of-middle :
    (f : Call → ℕ) (before after : List Call) (c : Call)
    → sum_of f (before ++ c ∷ after) ≡ f c + sum_of f (before ++ after)
sum_of-middle f [] after c = refl
sum_of-middle f (x ∷ before) after c = omega (arith, sum_of-middle f before after c)

-- A reservation fits below the limit.
reserve-fits :
    (max_bytes size already reserved base : ℕ) (failures : List ℕ)
    → reserve max_bytes size already failures ≡ some (reserved, base)
    → (base < max_bytes) × (reserved ≡ min (max_bytes - base) size)
unfolding reserve
reserve-fits max_bytes size already reserved base [] h = (ground arith, ground arith)
reserve-fits max_bytes size already reserved base (current ∷ failures) h =
    reserve-fits max_bytes size current reserved base failures (ground arith)

-- A step that replaces a call by another one with as many bytes and as much due.
sum_of-replaced :
    (f : Call → ℕ) (calls before after : List Call) (c d : Call)
    → calls ≡ before ++ c ∷ after
    → f d ≡ f c
    → sum_of f (before ++ d ∷ after) ≡ sum_of f calls
sum_of-replaced f calls before after c d e h =
    omega
      (arith, h, ap (sum_of f) e, sum_of-middle f before after c, sum_of-middle f before after d)

Step-IsBounded :
    {limit : ℕ} {s t : Shared} → limit < u64_mod → Step s t → IsBounded limit s → IsBounded limit t
unfolding exchange set_truncated commit give_back
Step-IsBounded p (finds_full s content already failures e) v = record {
  same_limit = v.same_limit;
  counted = omega (arith, v.counted);
  within = v.within;
  complete = λ f g. absurd (omega (arith, g));
}
Step-IsBounded p (reserves s d content now already reserved failures e) v =
    let (room, size) = reserve-fits _ (length content) already reserved _ failures e in
    elim (Bool-cases (ltb reserved (length content))) [
      | inl y ↦ rw y (record {
        same_limit = v.same_limit;
        counted = ground (arith, v.counted, v.within, v.same_limit, length-take reserved content);
        within = ground (arith, v.within, v.same_limit);
        complete = λ f g. absurd (omega (arith, g));
      })
      | inr y ↦ rw y (record {
        same_limit = v.same_limit;
        counted = ground (arith, v.counted, v.within, v.same_limit, length-take reserved content);
        within = ground (arith, v.within, v.same_limit);
        complete = λ f g. ground (arith, v.complete f (omega (arith, g)), v.within, v.same_limit);
      })
    ]
Step-IsBounded p (marks s before after m e) v = record {
  same_limit = v.same_limit;
  counted =
      omega
        (arith, v.counted, sum_of-replaced held s.calls before after (is_cut m) (waiting m) e refl);
  within = v.within;
  complete = λ f g. absurd (cc);
}
Step-IsBounded p (is_taken s before after m e) v = record {
  same_limit = v.same_limit;
  counted = omega (
    arith,
    v.counted,
    ap (sum_of held) e,
    sum_of-middle held before after (waiting m),
    total_size-append s.observer.sent (m ∷ []),
  );
  within = v.within;
  complete = λ f g.
      v.complete f
        (omega (arith, g, ap (sum_of due) e, sum_of-middle due before after (waiting m)));
}
Step-IsBounded p (is_refused s before after m e) v = record {
  same_limit = v.same_limit;
  counted =
      omega (
        arith,
        v.counted,
        sum_of-replaced held s.calls before after (waiting m) (refused m) e refl,
      );
  within = v.within;
  complete = λ f g.
      v.complete f
        (omega (arith, g, sum_of-replaced due s.calls before after (waiting m) (refused m) e refl));
}
Step-IsBounded p (gives_back s before after m e) v =
    let h = ap (sum_of held) e in
    let k = sum_of-middle held before after (refused m) in
    record {
      same_limit = v.same_limit;
      counted = omega (arith, v.counted, v.within, h, k, sum_of-middle held before after flag_due);
      within = omega (arith, v.counted, v.within, h, k);
      complete = λ f g. absurd (omega (arith, g, sum_of-middle due before after flag_due));
    }
Step-IsBounded p (returns s before after e) v = record {
  same_limit = v.same_limit;
  counted = omega (arith, v.counted, ap (sum_of held) e, sum_of-middle held before after flag_due);
  within = v.within;
  complete = λ f g. absurd (cc);
}

Reach-IsBounded :
    {limit : ℕ} {s t : Shared} → limit < u64_mod → IsBounded limit s → Reach s t → IsBounded limit t
Reach-IsBounded p v here = v
Reach-IsBounded p v (next r st) = Step-IsBounded p st (Reach-IsBounded p v r)

-- A capture that starts, with a limit.
abbrev pub started : ℕ → Shared
started limit = record {
  observer = record { captured = 0; truncated = false; max_bytes = limit; sent = [] };
  calls = [];
  seen = 0;
}

-- With a limit below 2^64, in every interleaving of the atomic steps of calls since the start of a
-- capture, the counter of captured bytes is the number of bytes sent to the writer or reserved by calls
-- under way, and is within the limit; and the capture is marked truncated, or some call is about to
-- mark it, or those are all the bytes that calls behind their loops were given.
pub Reach-captured :
    (limit : ℕ) (t : Shared)
    → limit < u64_mod
    → Reach (started limit) t
    → (t.observer.captured ≡ total_size t.observer.sent + sum_of held t.calls)
      × (t.observer.captured ≤ limit)
      × ((t.observer.truncated ≡ true) ⊎ (0 < sum_of due t.calls) ⊎ (t.observer.captured ≡ t.seen))
Reach-captured limit t p r =
    let v = Reach-IsBounded p first r in
    (
      v.counted,
      v.within,
      elim (Bool-cases t.observer.truncated) [
        | inl cut ↦ inl cut
        | inr uncut ↦ inr (decided (sum_of due t.calls) (v.complete uncut))
      ],
    )
  where
    first : IsBounded limit (started limit)
    first = record {
      same_limit = refl;
      counted = omega arith;
      within = omega arith;
      complete = λ h g. refl;
    }

    decided : (n : ℕ) {P : Type 0} → (n ≡ 0 → P) → (0 < n) ⊎ P
    decided zero h = inr (h refl)
    decided (suc n) h = inl (omega arith)
