-- ===== src/Capture/Observer.antt =====
-- crates/wsrx/src/cli/capture.rs: `CaptureObserver::observe` and `CaptureSession::finish`. The
-- counter `captured` is an `AtomicU64`; the channel to the writer takes a packet or refuses it.
pub mod Interleaving
use lab_stream_gate.Common.{
  ℕ, ◌+◌, ◌-◌, ◌%◌, ◌^◌, Bool, true, false, Option, none, some, List, [], ◌∷◌, ◌++◌, min, leb, ltb,
  if◌then◌else◌, length, take,
}
use lab_stream_gate.Proxy.{TrafficDirection}
use lab_stream_gate.Capture.Pcap.{Timestamp, CaptureMessage, packet}

abbrev pub u64_mod : ℕ
u64_mod = 2 ^ 64

-- The shared state of the observer, with what the channel has taken.
pub record CaptureObserver : Type 0 where
  pub captured : ℕ
  pub truncated : Bool
  pub max_bytes : ℕ
  pub sent : List CaptureMessage

-- The loop round `compare_exchange_weak`: `already` is the value first loaded, and each further one
-- is the value that a failed exchange returns. The result is the length to reserve and the value at
-- which the last exchange succeeds, or none where the limit is found reached.
unfoldable pub reserve : ℕ → ℕ → ℕ → List ℕ → Option (ℕ × ℕ)
reserve max_bytes size already [] =
    if leb max_bytes already then none else some (min (max_bytes - already) size, already)
reserve max_bytes size already (current ∷ failures) =
    if leb max_bytes already then none else reserve max_bytes size current failures

-- The successful exchange.
unfoldable pub exchange : ℕ → CaptureObserver → CaptureObserver
exchange reserved o = record o { captured = (o.captured + reserved) % u64_mod }

-- `truncated.store(true)`.
unfoldable pub set_truncated : CaptureObserver → CaptureObserver
set_truncated o = record o { truncated = true }

-- The store for a packet that is cut.
unfoldable pub mark_cut : ℕ → ℕ → CaptureObserver → CaptureObserver
unfolding set_truncated
mark_cut reserved size o = if ltb reserved size then set_truncated o else o

-- `try_send` succeeds.
unfoldable pub commit : CaptureMessage → CaptureObserver → CaptureObserver
commit m o = record o { sent = o.sent ++ m ∷ [] }

-- It fails, and the reservation is given back: `fetch_sub`, which wraps.
unfoldable pub give_back : ℕ → CaptureObserver → CaptureObserver
give_back reserved o = record o { captured = (o.captured + u64_mod - reserved) % u64_mod }

unfoldable pub after_reserve :
    Bool
    → TrafficDirection
    → List ℕ
    → Timestamp
    → Option (ℕ × ℕ)
    → CaptureObserver
    → CaptureObserver
unfolding exchange set_truncated mark_cut commit give_back
after_reserve accepted d content now none o = set_truncated o
after_reserve accepted d content now (some (reserved, base)) o =
    let marked = mark_cut reserved (length content) (exchange reserved o) in
    if accepted
    then commit (packet d (take reserved content) now) marked
    else set_truncated (give_back reserved marked)

-- `observe` by one thread at a time; `accepted` is the channel's answer.
unfoldable pub observe :
    Bool → TrafficDirection → List ℕ → Timestamp → CaptureObserver → CaptureObserver
unfolding after_reserve reserve
observe accepted d content now o =
    after_reserve accepted d content now (reserve o.max_bytes (length content) o.captured []) o

-- What `finish` reports, once the writer has taken all that was sent.
abbrev pub finish_result : CaptureObserver → ℕ × Bool
finish_result o = (o.captured, o.truncated)
