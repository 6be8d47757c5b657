-- ===== src/Daemon/TxSelector/Keyed.antt =====
-- The groups of transactions by their sender while xelis_daemon/src/core/tx_selector.rs collects them.
use blockchain_xelis.Prelude.{
  ◌≡◌, refl, sym, ap, List, [], ◌∷◌, ◌++◌, some, none, arith, All, map, Bool-cases, inl, inr,
}
use mathlib.Core.Path.{subst}
use mathlib.Core.List.{Perm, append_assoc}
use mathlib.Core.List.Perm
use mathlib.Core.List.Permᴰ
use blockchain_xelis.Daemon.BlockDag.{hash_beq}
use blockchain_xelis.Daemon.BlockDag.Sets.{IsOneOf, hash_beq_iff}
use blockchain_xelis.Daemon.Mempool.{PublicKey, lookup, delete}
use blockchain_xelis.Daemon.TxSelector.{TxSelectorEntry}
use blockchain_xelis.Daemon.TxSelector.Order.{all_of, append_swap}

abbrev pub IsFilled : List TxSelectorEntry → Type 0
IsFilled [] = ⊥
IsFilled (entry ∷ rest) = Unit

pub IsFilled-append : (l : List TxSelectorEntry) (x : TxSelectorEntry) → IsFilled (l ++ x ∷ [])
IsFilled-append [] x = tt
IsFilled-append (y ∷ l) x = tt

abbrev pub Groups : Type 0
Groups = List (PublicKey × List TxSelectorEntry)

abbrev pub senders_of : Groups → List PublicKey
senders_of groups = map (λ (g : PublicKey × List TxSelectorEntry). g.0) groups

abbrev pub members_of : Groups → List TxSelectorEntry
members_of groups = all_of (map (λ (g : PublicKey × List TxSelectorEntry). g.1) groups)

abbrev pub AreFrom : PublicKey → List TxSelectorEntry → Type 0
AreFrom sender = All (λ entry. entry.tx.source ≡ sender)

-- The groups while they are collected: each has a sender of its own and some transactions, all of that sender.
abbrev pub AreKeyed : Groups → Type 0
AreKeyed [] = Unit
AreKeyed (g ∷ rest) =
    IsFilled g.1 × AreFrom g.0 g.1 × (¬ IsOneOf g.0 (senders_of rest)) × AreKeyed rest

IsOneOf-delete :
    (m : Groups) (key sender : PublicKey)
    → IsOneOf sender (senders_of (delete m key))
    → IsOneOf sender (senders_of m)
unfolding delete
IsOneOf-delete [] key sender member = member
IsOneOf-delete ((k, g) ∷ m) key sender member = elim (Bool-cases (hash_beq k key)) [
  | inl e ↦ inr (IsOneOf-delete m key sender (rw (delete, e) at member))
  | inr e ↦ elim (rw (delete, e) at member) [
    | inl same ↦ inl same
    | inr later ↦ inr (IsOneOf-delete m key sender later)
  ]
]

pub not-IsOneOf-delete : (m : Groups) (key : PublicKey) → ¬ IsOneOf key (senders_of (delete m key))
unfolding delete
not-IsOneOf-delete [] key member = member
not-IsOneOf-delete ((k, g) ∷ m) key member = elim (Bool-cases (hash_beq k key)) [
  | inl e ↦ not-IsOneOf-delete m key (rw (delete, e) at member)
  | inr e ↦ elim (rw (delete, e) at member) [
    | inl same ↦ absurd (ground (arith, e, (hash_beq_iff k key).1 (sym same)))
    | inr later ↦ not-IsOneOf-delete m key later
  ]
]

pub delete-AreKeyed : (m : Groups) (key : PublicKey) → AreKeyed m → AreKeyed (delete m key)
unfolding delete
delete-AreKeyed [] key keyed = tt
delete-AreKeyed ((k, g) ∷ m) key (filled, own, fresh, keyed) = elim (Bool-cases (hash_beq k key)) [
  | inl e ↦ rw (delete, e) (delete-AreKeyed m key keyed)
  | inr e ↦
      rw (delete, e)
        (filled, own, (λ k'. fresh (IsOneOf-delete m key k k')), delete-AreKeyed m key keyed)
]

pub delete-absent : (m : Groups) (key : PublicKey) → ¬ IsOneOf key (senders_of m) → delete m key ≡ m
unfolding delete
delete-absent [] key absent = refl
delete-absent ((k, g) ∷ m) key absent = elim (Bool-cases (hash_beq k key)) [
  | inl e ↦ absurd (absent (inl (sym ((hash_beq_iff k key).0 e))))
  | inr e ↦
      rw (delete, e)
        (ap (λ (rest : Groups). (k, g) ∷ rest) (delete-absent m key (λ l. absent (inr l))))
]

pub lookup-absent :
    (m : Groups) (key : PublicKey) → lookup m key ≡ none → ¬ IsOneOf key (senders_of m)
unfolding lookup
lookup-absent [] key missing member = member
lookup-absent ((k, g) ∷ m) key missing member = elim (Bool-cases (hash_beq k key)) [
  | inl e ↦ absurd (ground (arith, (rw (lookup, e) at missing)))
  | inr e ↦ elim member [
    | inl same ↦ absurd (ground (arith, e, (hash_beq_iff k key).1 (sym same)))
    | inr later ↦ lookup-absent m key (rw (lookup, e) at missing) later
  ]
]

-- Taking a group out leaves the members of the others.
pub members-delete :
    (m : Groups) (key : PublicKey) (group : List TxSelectorEntry)
    → AreKeyed m
    → lookup m key ≡ some group
    → AreFrom key group × Perm (members_of m) (group ++ members_of (delete m key))
unfolding lookup delete
members-delete [] key group keyed found = absurd (ground arith)
members-delete ((k, g) ∷ m) key group (filled, own, fresh, keyed) found =
    elim (Bool-cases (hash_beq k key)) [
      | inl e ↦
          let same : k ≡ key = (hash_beq_iff k key).0 e in
          let first : g ≡ group = ground (arith, (rw (lookup, e) at found)) in
          let others =
            delete-absent m key
              (subst (λ (x : PublicKey). ¬ IsOneOf x (senders_of m)) same fresh) in
          rw (delete, e, others, ← first, ← same) (own, Perm.rfl)
      | inr e ↦
          let (from, rest) = members-delete m key group keyed (rw (lookup, e) at found) in
          (
            from,
            rw (delete, e)
                (Perm.trans (Perm.append_left g rest)
                  ∣ append_swap g group (members_of (delete m key)) ∣₁),
          )
    ]

-- The group of the sender with the entry, in place of the one there was, has one member more.
pub grown_lem :
    (group rest : List TxSelectorEntry) (entry : TxSelectorEntry)
    → Perm ((group ++ entry ∷ []) ++ rest) (entry ∷ (group ++ rest))
grown_lem group rest entry =
    rw (append_assoc group (entry ∷ []) rest) (∣ Permᴰ.middle entry group rest ∣₁)
