-- ===== src/Daemon/BlockDag/Order.antt =====
-- The comparisons of the sorts of xelis_daemon/src/core/blockdag.rs as orders.
use blockchain_xelis.Prelude.{
  ℕ, ◌≡◌, refl, true, false, List, [], ◌∷◌, arith, IsSorted, sort_by-IsSorted, sort_by-perm,
  sort_by_permuted,
}
use mathlib.Core.List.{Perm, Permᴰ}
use blockchain_xelis.Daemon.BlockDag.{
  Hash, hash_leb, descending, ascending, sort_descending_by_cumulative_difficulty,
}

hash_leb_total : (a b : Hash) → hash_leb a b ≡ false → hash_leb b a ≡ true
unfolding hash_leb
hash_leb_total [] b h = ground arith
hash_leb_total (x ∷ a) [] h = refl
hash_leb_total (x ∷ a) (y ∷ b) h = ground (arith, hash_leb_total a b)

hash_leb_trans : (a b c : Hash) → hash_leb a b ≡ true → hash_leb b c ≡ true → hash_leb a c ≡ true
unfolding hash_leb
hash_leb_trans [] b c h k = refl
hash_leb_trans (x ∷ a) [] c h k = ground arith
hash_leb_trans (x ∷ a) (y ∷ b) [] h k = ground arith
hash_leb_trans (x ∷ a) (y ∷ b) (z ∷ c) h k = ground (arith, hash_leb_trans a b c)

hash_leb_antisym : (a b : Hash) → hash_leb a b ≡ true → hash_leb b a ≡ true → a ≡ b
unfolding hash_leb
hash_leb_antisym [] [] h k = refl
hash_leb_antisym [] (y ∷ b) h k = ground arith
hash_leb_antisym (x ∷ a) [] h k = ground arith
hash_leb_antisym (x ∷ a) (y ∷ b) h k = ground (arith, hash_leb_antisym a b)

descending_total : (a b : Hash × ℕ) → descending a b ≡ false → descending b a ≡ true
unfolding descending
descending_total a b h = ground (arith, hash_leb_total b.0 a.0)

descending_trans :
    (a b c : Hash × ℕ) → descending a b ≡ true → descending b c ≡ true → descending a c ≡ true
unfolding descending
descending_trans a b c h k = ground (arith, hash_leb_trans c.0 b.0 a.0)

descending_antisym : (a b : Hash × ℕ) → descending a b ≡ true → descending b a ≡ true → a ≡ b
unfolding descending
descending_antisym a b h k = ground (arith, hash_leb_antisym a.0 b.0)

-- The descending sort permutes the scores and leaves each in order with all that follow: a larger
-- cumulative difficulty first and, at equal ones, the larger hash.
pub sort_descending-IsSorted :
    (scores : List (Hash × ℕ))
    → Perm (sort_descending_by_cumulative_difficulty scores) scores
      × IsSorted descending (sort_descending_by_cumulative_difficulty scores)
unfolding sort_descending_by_cumulative_difficulty
sort_descending-IsSorted scores = (
  sort_by-perm descending scores,
  sort_by-IsSorted descending descending_total descending_trans scores,
)

-- The descending sort gives one result for all orders in which the same scores may come.
pub sort_descending_permuted :
    (l m : List (Hash × ℕ))
    → Permᴰ l m
    → sort_descending_by_cumulative_difficulty l ≡ sort_descending_by_cumulative_difficulty m
unfolding sort_descending_by_cumulative_difficulty
sort_descending_permuted l m p =
    sort_by_permuted descending descending_total descending_trans descending_antisym p

-- The two comparisons are opposite.
ascending_lem : (a b : Hash × ℕ) → ascending a b ≡ descending b a
unfolding ascending descending
ascending_lem a b = ground arith
