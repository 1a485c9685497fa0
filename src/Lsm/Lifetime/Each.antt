-- ===== src/Lsm/Lifetime/Each.antt =====
-- Transactions that all have a property, as the log of store/lsm.rs keeps them.
use kave.Base.{ℕ, zero, suc, List, [], ◌∷◌, ◌++◌, drop}
use kave.Store.{Transaction}

-- Each of the transactions has the property.
abbrev pub EachOf : (Transaction → Type 0) → List Transaction → Type 0
EachOf P [] = Unit
EachOf P (tx ∷ txs) = P tx × EachOf P txs

pub EachOf-append :
    (P : Transaction → Type 0) (xs ys : List Transaction)
    → EachOf P xs
    → EachOf P ys
    → EachOf P (xs ++ ys)
EachOf-append P [] ys h k = k
EachOf-append P (tx ∷ xs) ys h k = (h.0, EachOf-append P xs ys h.1 k)

pub EachOf-drop :
    (P : Transaction → Type 0) (n : ℕ) (xs : List Transaction) → EachOf P xs → EachOf P (drop n xs)
EachOf-drop P zero xs h = h
EachOf-drop P (suc n) [] h = tt
EachOf-drop P (suc n) (tx ∷ xs) h = EachOf-drop P n xs h.1

pub EachOf-split :
    (P : Transaction → Type 0) (xs ys : List Transaction)
    → EachOf P (xs ++ ys)
    → EachOf P xs × EachOf P ys
EachOf-split P [] ys h = (tt, h)
EachOf-split P (tx ∷ xs) ys h = let rest = EachOf-split P xs ys h.1 in ((h.0, rest.0), rest.1)

-- Every transaction has this property.
abbrev pub Any : Transaction → Type 0
Any tx = Unit

pub EachOf-Any : (txs : List Transaction) → EachOf Any txs
EachOf-Any [] = tt
EachOf-Any (tx ∷ txs) = (tt, EachOf-Any txs)

pub EachOf-map :
    (P Q : Transaction → Type 0)
    → ((tx : Transaction) → P tx → Q tx)
    → (txs : List Transaction) → EachOf P txs
    → EachOf Q txs
EachOf-map P Q f [] h = tt
EachOf-map P Q f (tx ∷ txs) h = (f tx h.0, EachOf-map P Q f txs h.1)
