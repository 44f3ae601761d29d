-- ===== src/Dispatcher/WakeLock/Infos.antt =====
-- Lookups in the list of allocated `UserCallbackInfo`.
use platform_hardware_ril.Dispatcher.WakeLock.{cancel_last}
use platform_hardware_ril.Base.{
  ℕ, ◌≡◌, ◌≢◌, refl, true, Option, none, some, List, [], ◌∷◌, arith, ◌==◌, if◌then◌else◌,
}
use platform_hardware_ril.Dispatcher.WakeLock.{Info, cancel_at, free_at}

abbrev pub find : ℕ → List Info → Option Info
find p [] = none
find p (i ∷ is) = let later = find p is in if i.address == p then some i else later

pub find-cancel_at_same :
    (p : ℕ) (is : List Info) (i : Info)
    → find p is ≡ some i
    → find p (cancel_at p is) ≡ some (record i { param_set = true })
unfolding cancel_at
find-cancel_at_same p [] i h = cc
find-cancel_at_same p (j ∷ is) i h = ground (arith, find-cancel_at_same p is i)

pub find-cancel_at_other : (p q : ℕ) (is : List Info) → p ≢ q → find p (cancel_at q is) ≡ find p is
unfolding cancel_at
find-cancel_at_other p q [] h = refl
find-cancel_at_other p q (j ∷ is) h = ground (arith, find-cancel_at_other p q is h)

pub find-free_at_other : (p q : ℕ) (is : List Info) → p ≢ q → find p (free_at q is) ≡ find p is
unfolding free_at
find-free_at_other p q [] h = refl
find-free_at_other p q (j ∷ is) h = ground (arith, find-free_at_other p q is h)

pub find-free_at_same : (p : ℕ) (is : List Info) → find p (free_at p is) ≡ none
unfolding free_at
find-free_at_same p [] = refl
find-free_at_same p (j ∷ is) = ground (arith, find-free_at_same p is)

pub find-address : (p : ℕ) (is : List Info) (i : Info) → find p is ≡ some i → i.address ≡ p
find-address p [] i h = cc
find-address p (j ∷ is) i h = ground (arith, find-address p is i)

cancel_at-allocated : (p q : ℕ) (is : List Info) → find p is ≢ none → find p (cancel_at q is) ≢ none
unfolding cancel_at
cancel_at-allocated p q [] h = h
cancel_at-allocated p q (j ∷ is) h = ground (arith, cancel_at-allocated p q is, h)

-- A structure that is allocated stays so when one is cancelled.
pub cancel_last-allocated :
    (p : ℕ) (last : Option ℕ) (is : List Info)
    → find p is ≢ none
    → find p (cancel_last last is) ≢ none
unfolding cancel_last
cancel_last-allocated p none is h = h
cancel_last-allocated p (some q) is h = cancel_at-allocated p q is h
