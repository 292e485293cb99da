-- ===== src/Csi/Channel/FirstFree.antt =====
-- The search meets its description: the first free slot of a fixed list.
use cluster_api_provider_clo.Prelude.{
  ℕ, zero, suc, ◌+◌, ◌<◌, ◌≡◌, refl, String, true, false, Option, none, some, List, [], ◌∷◌, ◌++◌,
  length, contains, All, ascending, base_eleven, length-le_of_contains, arith, if◌then◌else◌,
  Option-cases, ==_iff, inl, inr, ap,
}
use cluster_api_provider_clo.CloudSdk.{ServerDrive}
use cluster_api_provider_clo.Csi.Channel.{
  channel, try_units, try_controllers, used_channels, find_next_device_channel,
}

pub first_free : List String → List String → Option String
first_free used [] = none
first_free used (slot ∷ slots) = if contains used slot then first_free used slots else some slot

abbrev units : ℕ → List String
units controller = channel controller 0 ∷ channel controller 1 ∷ channel controller 2 ∷ []

controller_slots : ℕ → ℕ → List String
controller_slots zero controller = []
controller_slots (suc rounds) controller =
    units controller ++ controller_slots rounds (controller + 1)

-- The slots in the order in which they are tried: 0:2, then 1:0 to 202:2 without unit 3.
pub all_slots : List String
unfolding controller_slots channel
all_slots = "0:2" ∷ controller_slots 202 1

first_free-append :
    (used xs ys : List String)
    → first_free used (xs ++ ys)
      ≡ elim (first_free used xs) [ some s ↦ some s | none ↦ first_free used ys ]
unfolding first_free
first_free-append used [] ys = refl
first_free-append used (x ∷ xs) ys = ground (arith, first_free-append used xs ys)

try_units-first_free :
    (used : List String) (controller : ℕ)
    → try_units used controller 3 0 ≡ first_free used (units controller)
unfolding try_units first_free
try_units-first_free used controller = ground arith

try_controllers-first_free :
    (used : List String) (rounds controller : ℕ)
    → try_controllers used rounds controller ≡ first_free used (controller_slots rounds controller)
unfolding try_controllers controller_slots
try_controllers-first_free used zero controller = unfold first_free in refl
try_controllers-first_free used (suc rounds) controller = ground (
  arith,
  try_units-first_free used controller,
  try_controllers-first_free used rounds (controller + 1),
  first_free-append used (units controller) (controller_slots rounds (controller + 1)),
)

abbrev pub or_last : Option String → String
or_last (some free) = free
or_last none = "202:2"

-- The driver picks the first slot of the list that no drive holds, and 202:2 if all are held.
pub find_next_device_channel-first_free :
    (drives : List ServerDrive)
    → find_next_device_channel drives ≡ or_last (first_free (used_channels drives) all_slots)
unfolding find_next_device_channel all_slots first_free
find_next_device_channel-first_free drives =
    ground (arith, try_controllers-first_free (used_channels drives) 202 1)

first_free-none :
    (used slots : List String)
    → first_free used slots ≡ none
    → All (λ slot. contains used slot ≡ true) slots
unfolding first_free
first_free-none used [] h = tt
first_free-none used (slot ∷ slots) h = (ground arith, first_free-none used slots (ground arith))

first_free-some :
    (used slots : List String) (s : String)
    → first_free used slots ≡ some s
    → (contains used s ≡ false) × (contains slots s ≡ true)
unfolding first_free contains
first_free-some used [] s h = cc
first_free-some used (slot ∷ slots) s h =
    ground (arith, first_free-some used slots s, ==_iff slot s)

all_slots-ascending : ascending base_eleven 0 all_slots ≡ true
unfolding ascending base_eleven all_slots
all_slots-ascending = refl

length-all_slots : length all_slots ≡ 607
unfolding all_slots
length-all_slots = refl

length-used_channels : (drives : List ServerDrive) → length (used_channels drives) ≡ length drives
length-used_channels [] = refl
length-used_channels (d ∷ drives) = ap suc (length-used_channels drives)

-- A server with fewer than 607 drives gets a channel that none of them holds, from the list.
pub find_next_device_channel_free :
    (drives : List ServerDrive)
    → length drives < 607
    → (contains (used_channels drives) (find_next_device_channel drives) ≡ false)
      × (contains all_slots (find_next_device_channel drives) ≡ true)
find_next_device_channel_free drives h =
    rw (find_next_device_channel-first_free drives)
      (elim (Option-cases (first_free (used_channels drives) all_slots)) [
        | inl e ↦ absurd (
            omega (
              arith,
              length-all_slots,
              length-used_channels drives,
              length-le_of_contains base_eleven (used_channels drives) all_slots 0
                  all_slots-ascending (first_free-none (used_channels drives) all_slots e),
            ))
        | inr (s, e) ↦ rw e (first_free-some (used_channels drives) all_slots s e)
      ])
