-- ===== src/Adapters/Client.antt =====
-- response/adapters/blocklist.py, `BlocklistClient`: what a backend of one firewall peer offers, and what
-- its documentation promises. The adapter is written against this interface.
use enterprise_netsec_iac.Common.{
  ℕ, String, ◌≡◌, Bool, true, false, ◌||◌, Option, ok, Method, Result, not, err,
}
use text.Mathlib.Text.{starts_with}

-- The three methods, on the state `S` of the peer behind the client.
pub record BlocklistClient (S : Type 0) : Type 0 where
  pub add : String → String → Option ℕ → Method S String
  pub remove : String → String → Method S String
  pub contains : String → Method S Bool

-- `BlocklistAdapter._released_without_removal`
abbrev pub released_without_removal : String → Bool
released_without_removal reference =
    starts_with reference "shared:" || starts_with reference "preexisting:"

-- `is True` (or `is False`) of an answer that may be an exception.
abbrev pub answered : Bool → Result Bool → Bool
answered wanted (ok true) = wanted
answered wanted (ok false) = not wanted
answered wanted (err e) = false

-- A call that raised nothing.
abbrev pub succeeded : {A : Type 0} → Result A → Bool
succeeded (ok r) = true
succeeded (err e) = false

-- The contract, on two tests of the state: the address is in the set, and the key has a claim on it.
pub record IsOwnershipAware {S : Type 0} (c : BlocklistClient S) : Type 0 where
  pub blocked : String → S → Bool
  pub holds : String → String → S → Bool
  pub add_claims :
      (a k : String) (l : Option ℕ) (s : S)
      → succeeded (c.add a k l s).0 ≡ true
      → holds a k (c.add a k l s).1 ≡ true
  pub remove_releases :
      (a k : String) (s : S)
      → succeeded (c.remove a k s).0 ≡ true
      → holds a k (c.remove a k s).1 ≡ false
  pub contains_reads :
      (a : String) (s : S)
      → (answered true (c.contains a s).0 ≡ true → blocked a s ≡ true)
        × (answered false (c.contains a s).0 ≡ true → blocked a s ≡ false)
  pub contains_keeps :
      (a k : String) (s : S)
      → (blocked a (c.contains a s).1 ≡ blocked a s) × (holds a k (c.contains a s).1 ≡ holds a k s)
