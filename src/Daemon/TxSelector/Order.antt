-- ===== src/Daemon/TxSelector/Order.antt =====
-- The order in which xelis_daemon/src/core/tx_selector.rs gives the transactions.
use blockchain_xelis.Prelude.{◌≡◌, ◌⊎◌, refl, List, [], ◌∷◌, ◌++◌, IsSorted}
use mathlib.Core.List.{Permᴰ}
use mathlib.Core.List.Permᴰ
use blockchain_xelis.Daemon.TxSelector.{TxSelectorEntry, by_nonce}

abbrev pub all_of : List (List TxSelectorEntry) → List TxSelectorEntry
all_of [] = []
all_of (group ∷ queue) = group ++ all_of queue

move_first :
    (x : TxSelectorEntry) (b c : List TxSelectorEntry) → Permᴰ (x ∷ (b ++ c)) (b ++ (x ∷ c))
move_first x [] c = Permᴰ.refl _
move_first x (y ∷ b) c = Permᴰ.trans (Permᴰ.swap refl refl) (Permᴰ.cons refl (move_first x b c))

pub append_swap : (a b c : List TxSelectorEntry) → Permᴰ (a ++ (b ++ c)) (b ++ (a ++ c))
append_swap [] b c = Permᴰ.refl _
append_swap (x ∷ a) b c =
    Permᴰ.trans (Permᴰ.cons refl (append_swap a b c)) (move_first x b (a ++ c))

abbrev pub IsIn : List TxSelectorEntry → List (List TxSelectorEntry) → Type 0
IsIn g [] = ⊥
IsIn g (group ∷ queue) = (g ≡ group) ⊎ IsIn g queue

-- A group of the queue has transactions, by rising nonce.
abbrev pub IsGroup : List TxSelectorEntry → Type 0
IsGroup [] = ⊥
IsGroup (entry ∷ rest) = IsSorted by_nonce (entry ∷ rest)
