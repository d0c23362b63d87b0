-- ===== src/Search/Rank/Document.antt =====
-- The documents that internal/search/hybrid.go sends to the reranker.

use ragota.Base.{
  ==_iff, Bool-cases, arith, false, inl, inr, leb, leb-false→lt, leb→le, length, refl, suc, take,
  true, zero, ℕ, ◌<◌, ◌==◌, ◌≡◌, ◌≤◌, ◌⊎◌,
}
use ragota.Base.Text.{Str}
use ragota.Search.Rank.{cut_back, starts_at, truncate_rerank_doc}

cut_back-le : (doc : Str) (n : ℕ) → cut_back doc n ≤ n
unfolding cut_back
cut_back-le doc zero = omega arith
cut_back-le doc (suc n) = ground (arith, cut_back-le doc n)

cut_back-starts_at :
    (doc : Str) (n : ℕ) → (cut_back doc n ≡ 0) ⊎ (starts_at doc (cut_back doc n) ≡ true)
unfolding cut_back
cut_back-starts_at doc zero = inl refl
cut_back-starts_at doc (suc n) = elim (Bool-cases (starts_at doc (suc n))) [
  | inl e ↦ rw (e, cut_back) (inr e)
  | inr e ↦ rw (e, cut_back) (cut_back-starts_at doc n)
]

cut_back-last : (doc : Str) (n m : ℕ) → cut_back doc n < m → m ≤ n → starts_at doc m ≡ false
unfolding cut_back
cut_back-last doc zero m h k = absurd (omega (arith, h, k))
cut_back-last doc (suc n) m h k = elim (Bool-cases (starts_at doc (suc n))) [
  | inl e ↦ absurd (ground (arith, e, h, k))
  | inr e ↦ elim (Bool-cases (m == suc n)) [
    | inl same ↦ rw ((==_iff m (suc n)).0 same) e
    | inr less ↦ cut_back-last doc n m (ground (arith, e, h)) (ground (arith, k, less))
  ]
]

-- A document that is longer than 4096 bytes is cut at most there, at its beginning or in front of
-- a byte that starts a rune, and no byte between the cut and byte 4096 starts one.
pub truncate_rerank_doc_lem :
    (doc : Str) (m : ℕ)
    → 4096 < length doc
    → m ≤ 4096
    → (n : ℕ) × (truncate_rerank_doc doc ≡ take n doc)
      × (n ≤ 4096)
      × ((n ≡ 0) ⊎ (starts_at doc n ≡ true))
      × ((m ≤ n) ⊎ (starts_at doc m ≡ false))
unfolding truncate_rerank_doc
truncate_rerank_doc_lem doc m long le =
    let n = cut_back doc 4096 in
    let is_long : leb (length doc) 4096 ≡ false = ground arith in
    (
      n,
      rw (is_long, truncate_rerank_doc) refl,
      cut_back-le doc 4096,
      cut_back-starts_at doc 4096,
      elim (Bool-cases (leb m n)) [
        | inl b ↦ inl (leb→le m n b)
        | inr b ↦ inr (cut_back-last doc 4096 m (leb-false→lt m n b) le)
      ],
    )
