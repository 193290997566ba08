-- ===== src/Capture/Bytes.antt =====
-- Integers as bytes (`to_le_bytes`, `to_be_bytes`), and `slice::chunks`.
use lab_stream_gate.Common.{
  ℕ, zero, suc, ◌+◌, ◌*◌, ◌/◌, ◌%◌, ◌^◌, ◌≤◌, ◌<◌, ◌≡◌, refl, ap, ◌∙◌, List, [], ◌∷◌, ◌++◌, arith,
  length, take, drop, All, length-take, length-drop, take-append-drop,
}

abbrev pub u16_mod : ℕ
u16_mod = 2 ^ 16

abbrev pub u32_mod : ℕ
u32_mod = 2 ^ 32

unfoldable pub le16 : ℕ → List ℕ
le16 n = (n % 256) ∷ (n / 256 % 256) ∷ []

unfoldable pub le32 : ℕ → List ℕ
le32 n = (n % 256) ∷ (n / 256 % 256) ∷ (n / 0x10000 % 256) ∷ (n / 0x1000000 % 256) ∷ []

unfoldable pub be16 : ℕ → List ℕ
be16 n = (n / 256 % 256) ∷ (n % 256) ∷ []

-- What such bytes stand for; bytes that are missing count as zero.
abbrev pub from_le : List ℕ → ℕ
from_le [] = 0
from_le (b ∷ bs) = b + 256 * from_le bs

abbrev pub from_be : ℕ → List ℕ → ℕ
from_be acc [] = acc
from_be acc (b ∷ bs) = from_be (256 * acc + b) bs

pub from_le-le32 : (n : ℕ) → n < u32_mod → from_le (le32 n) ≡ n
unfolding le32
from_le-le32 n h = omega arith

from_be-be16 : (n : ℕ) → n < u16_mod → from_be 0 (be16 n) ≡ n
unfolding be16
from_be-be16 n h = omega arith

-- `chunks`, on fuel for the rounds.
unfoldable pub chunks_on : ℕ → ℕ → List ℕ → List (List ℕ)
chunks_on zero n content = []
chunks_on (suc fuel) n [] = []
chunks_on (suc fuel) n (b ∷ content) =
    take n (b ∷ content) ∷ chunks_on fuel n (drop n (b ∷ content))

-- A round takes at least one byte, so the length is fuel enough.
unfoldable pub chunks : ℕ → List ℕ → List (List ℕ)
unfolding chunks_on
chunks n content = chunks_on (length content) n content

unfoldable pub concat : List (List ℕ) → List ℕ
concat [] = []
concat (c ∷ cs) = c ++ concat cs

chunks_on-concat :
    (fuel n : ℕ) (content : List ℕ)
    → 0 < n
    → length content ≤ fuel
    → concat (chunks_on fuel n content) ≡ content
unfolding chunks_on concat
chunks_on-concat zero n [] p h = refl
chunks_on-concat zero n (b ∷ content) p h = absurd (omega arith)
chunks_on-concat (suc fuel) n [] p h = refl
chunks_on-concat (suc fuel) n (b ∷ content) p h =
    ap (◌++◌ (take n (b ∷ content))) (
      chunks_on-concat fuel n (drop n (b ∷ content)) p (omega (arith, length-drop n (b ∷ content))))
    ∙ take-append-drop n (b ∷ content)

chunks_on-bounded :
    (fuel n : ℕ) (content : List ℕ) → All (λ c. length c ≤ n) (chunks_on fuel n content)
unfolding chunks_on
chunks_on-bounded zero n content = tt
chunks_on-bounded (suc fuel) n [] = tt
chunks_on-bounded (suc fuel) n (b ∷ content) =
    (omega (arith, length-take n (b ∷ content)), chunks_on-bounded fuel n (drop n (b ∷ content)))

-- The chunks are the content in pieces of at most the given size.
pub chunks_lem :
    (n : ℕ) (content : List ℕ)
    → 0 < n
    → (concat (chunks n content) ≡ content) × All (λ c. length c ≤ n) (chunks n content)
unfolding chunks
chunks_lem n content p = (
  chunks_on-concat (length content) n content p (omega arith),
  chunks_on-bounded (length content) n content,
)
