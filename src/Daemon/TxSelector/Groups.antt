-- ===== src/Daemon/TxSelector/Groups.antt =====
-- The groups of transactions that xelis_daemon/src/core/tx_selector.rs starts from.
use blockchain_xelis.Prelude.{
  ◌≡◌, refl, List, [], ◌∷◌, ◌++◌, arith, All, All-sort_by, All-append, sort_by, sort_by-IsSorted,
  sort_by-perm, IsSorted, Option-cases, map, inl, inr,
}
use mathlib.Core.List.{Perm, append-nil}
use mathlib.Core.List.Perm
use mathlib.Core.List.Permᴰ
use blockchain_xelis.Daemon.BlockDag.Sets.{IsSetLike}
use blockchain_xelis.Daemon.Mempool.{PublicKey, lookup, delete, insert}
use blockchain_xelis.Daemon.TxSelector.{TxSelectorEntry, by_nonce, group_loop, new}
use blockchain_xelis.Daemon.TxSelector.Order.{IsGroup, all_of}
use blockchain_xelis.Daemon.TxSelector.Keyed.{
  IsFilled, IsFilled-append, Groups, senders_of, members_of, AreFrom, AreKeyed, not-IsOneOf-delete,
  delete-AreKeyed, delete-absent, lookup-absent, members-delete, grown_lem,
}

sorted-IsGroup : (l : List TxSelectorEntry) → IsFilled l → IsGroup (sort_by by_nonce l)
sorted-IsGroup [] f = absurd f
sorted-IsGroup (x ∷ l) f =
    let sorted =
      sort_by-IsSorted by_nonce (λ a b e. ground (arith, e)) (λ a b c e h. ground (arith, e, h))
        (x ∷ l) in
    let back = (All-sort_by by_nonce (λ (y : TxSelectorEntry). ⊥) (x ∷ l)).0 in
    go (sort_by by_nonce (x ∷ l)) sorted (λ none_left. (back none_left).0)
  where
    go :
        (s : List TxSelectorEntry)
        → IsSorted by_nonce s
        → ¬ All (λ (y : TxSelectorEntry). ⊥) s
        → IsGroup s
    go [] sorted filled = absurd (filled tt)
    go (y ∷ s) sorted filled = sorted

-- Collecting the entries keeps each group to a sender of its own, and loses and invents no transaction.
group_loop_lem :
    (entries : List TxSelectorEntry) (groups : Groups)
    → AreKeyed groups
    → AreKeyed (group_loop entries groups)
      × Perm (members_of (group_loop entries groups)) (members_of groups ++ entries)
unfolding group_loop insert
group_loop_lem [] groups keyed = (keyed, rw (append-nil (members_of groups)) Perm.rfl)
group_loop_lem (entry ∷ rest) groups keyed =
    let sender = entry.tx.source in
    let left = delete groups sender in
    let step : (group : List TxSelectorEntry)
        → IsFilled group
        → AreFrom sender group
        → Perm (group ++ members_of left) (entry ∷ members_of groups)
        → AreKeyed (group_loop rest ((sender, group) ∷ left))
          × Perm (members_of (group_loop rest ((sender, group) ∷ left)))
              (members_of groups ++ entry ∷ rest) =
      λ group filled own same.
        let (after, members) =
          group_loop_lem rest ((sender, group) ∷ left)
            (filled, own, not-IsOneOf-delete groups sender, delete-AreKeyed groups sender keyed) in
        (
          after,
          Perm.trans members (
              Perm.trans (Perm.append_right rest same)
                (Perm.symm (∣ Permᴰ.middle entry (members_of groups) rest ∣₁))),
        ) in
    elim (Option-cases (lookup groups sender)) [
      | inl missing ↦
          let absent = delete-absent groups sender (lookup-absent groups sender missing) in
          rw (group_loop, missing) (step (entry ∷ []) tt (refl, tt) (rw absent Perm.rfl))
      | inr (group, found) ↦
          let (from, same) = members-delete groups sender group keyed found in
          rw (group_loop, found)
            (step (group ++ entry ∷ []) (IsFilled-append group entry)
              (All-append (λ e. e.tx.source ≡ sender) group (entry ∷ []) from (refl, tt))
              (Perm.trans (grown_lem group (members_of left) entry)
                (Perm.cons entry (Perm.symm same))))
    ]

-- Each sender has a group: transactions of that sender, at least one, by rising nonce.
abbrev pub AreGroupsOf : List PublicKey → List (List TxSelectorEntry) → Type 0
AreGroupsOf [] [] = Unit
AreGroupsOf (sender ∷ senders) (group ∷ groups) =
    IsGroup group × AreFrom sender group × AreGroupsOf senders groups
AreGroupsOf _ _ = ⊥

sorted-AreGroupsOf :
    (l : Groups)
    → AreKeyed l
    → IsSetLike (senders_of l)
      × AreGroupsOf
          (senders_of l)
          (map (λ (g : PublicKey × List TxSelectorEntry). sort_by by_nonce g.1) l)
      × Perm
          (all_of (map (λ (g : PublicKey × List TxSelectorEntry). sort_by by_nonce g.1) l))
          (members_of l)
sorted-AreGroupsOf [] keyed = (tt, tt, Perm.rfl)
sorted-AreGroupsOf ((k, g) ∷ l) (filled, own, fresh, keyed) =
    let (distinct, groups, same) = sorted-AreGroupsOf l keyed in
    (
      (fresh, distinct),
      (
        sorted-IsGroup g filled,
        (All-sort_by by_nonce (λ entry. entry.tx.source ≡ k) g).1 own,
        groups,
      ),
      Perm.append (sort_by-perm by_nonce g) same,
    )

-- The queue that the selector starts from has one group for each of some distinct senders: at least one transaction, all of them
-- of that sender, by rising nonce. Together the groups have the given transactions, each as often as it was given.
pub new_lem :
    (entries : List TxSelectorEntry)
    → (senders : List PublicKey) × IsSetLike senders
      × AreGroupsOf senders (new entries)
      × Perm (all_of (new entries)) entries
unfolding new
new_lem entries =
    let (keyed, members) = group_loop_lem entries [] tt in
    let (distinct, groups, same) = sorted-AreGroupsOf (group_loop entries []) keyed in
    (senders_of (group_loop entries []), distinct, groups, Perm.trans same members)
