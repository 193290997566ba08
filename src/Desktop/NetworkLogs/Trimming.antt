-- ===== src/Desktop/NetworkLogs/Trimming.antt =====
-- crates/desktop/src/ui/network_logs.rs: `trim_end` and `find` of the parts of a line.
use lab_stream_gate.Common.{
  ℕ, zero, suc, ◌≡◌, refl, ap, true, [], ◌∷◌, ◌++◌, reverse, append-nil, append_assoc, arith,
  All-append,
}
use mathlib.Core.List.{reverse-append, reverse-cons, reverse-reverse}
use lab_stream_gate.Common.Text.{Text}
use lab_stream_gate.Desktop.NetworkLogs.{space_end, trim_back, trim_end}
use lab_stream_gate.Desktop.NetworkLogs.Editor.{spaces}
use lab_stream_gate.Desktop.NetworkLogs.Lines.{is_stamp_byte, IsStamp}

trim_end_space : (s : Text) → trim_end (s ++ b' ' ∷ []) ≡ trim_end s
unfolding trim_end trim_back space_end
trim_end_space s = rw (reverse-append s (b' ' ∷ [])) refl

space_end_stamp : (c : ℕ) (s : Text) → is_stamp_byte c ≡ true → space_end (c ∷ s) ≡ 0
unfolding space_end
space_end_stamp c [] h = ground arith
space_end_stamp c (b ∷ []) h = ground arith
space_end_stamp c (b ∷ a ∷ s) h = ground arith

trim_back_stamp : (s : Text) → IsStamp s → trim_back 0 s ≡ s
unfolding trim_back
trim_back_stamp [] h = refl
trim_back_stamp (c ∷ s) h = rw (space_end_stamp c s h.0, trim_back) refl

All-reverse : (s : Text) → IsStamp s → IsStamp (reverse s)
All-reverse [] h = tt
All-reverse (c ∷ s) h =
    rw (reverse-cons c s)
      (All-append (λ x. is_stamp_byte x ≡ true) (reverse s) (c ∷ []) (All-reverse s h.1) (h.0, tt))

trim_end_stamp : (s : Text) → IsStamp s → trim_end s ≡ s
unfolding trim_end
trim_end_stamp s h = rw (trim_back_stamp (reverse s) (All-reverse s h)) (reverse-reverse s)

pub spaces-snoc : (n : ℕ) (s : Text) → spaces (suc n) ++ s ≡ spaces n ++ b' ' ∷ s
spaces-snoc zero s = refl
spaces-snoc (suc n) s = ap (◌∷◌ b' ') (spaces-snoc n s)

pub spaces_last : (s : Text) (n : ℕ) → s ++ spaces (suc n) ≡ s ++ spaces n ++ b' ' ∷ []
spaces_last s n =
    cc (spaces-snoc n [], append-nil (spaces (suc n)), append_assoc s (spaces n) (b' ' ∷ []))

pub trim_end-spaces : (s : Text) (n : ℕ) → IsStamp s → trim_end (s ++ spaces n) ≡ s
trim_end-spaces s zero h = rw (append-nil s) (trim_end_stamp s h)
trim_end-spaces s (suc n) h =
    cc (spaces_last s n, trim_end_space (s ++ spaces n), trim_end-spaces s n h)
