-- ===== src/Cancel.antt =====
-- src/cancel.rs: the registry of cancel keys. A slot is shared between a handle and the registry: it
-- is an index into a store of slots. `fill` stands for the random bytes drawn for a key.
pub mod Slots
pub mod Sessions
use rama_pg.Bytes.{Bytes}
use rama_pg.Bytes.Map.{lookup, insert, remove}
use rama_pg.Prelude.{
  ℕ, zero, suc, List, [], ◌∷◌, ◌++◌, length, Option, none, some, Bool, true, false, leb, ◌==◌,
  if◌then◌else◌, get_or,
}
use rama_pg.Startup.{ProtocolVersion, minor, CancelKey}

abbrev pub set_slot {ℓ} : {A : Type ℓ} → ℕ → A → List A → List A
set_slot i a [] = []
set_slot zero a (x ∷ xs) = a ∷ xs
set_slot (suc i) a (x ∷ xs) = x ∷ set_slot i a xs

-- `CancelHandle`: its slot, and the key that its drop deregisters.
pub record CancelHandle : Type 0 where
  pub slot : ℕ
  pub on_drop : Option Bytes

-- `RegistryCancellation`, with the store of the slots.
pub record Registry {ℓ} (Target : Type ℓ) : Type ℓ where
  pub sessions : List (Bytes × ℕ)
  pub slots : List (Option Target)

-- The bytes of a key: protocol 3.0 has room for 8.
unfoldable pub key_len : ProtocolVersion → ℕ
key_len version = if leb 2 (minor version) then 32 else 8

module _ {ℓ} {Target : Type ℓ} where
  abbrev pub empty : Registry Target
  empty = record { sessions = []; slots = [] }

  unfoldable pub len : Registry Target → ℕ
  len reg = length reg.sessions

  unfoldable pub is_empty : Registry Target → Bool
  unfolding len
  is_empty reg = len reg == 0

  -- `RegistryCancellation::begin`
  unfoldable pub begin :
      (ℕ → Bytes)
      → ProtocolVersion
      → Registry Target
      → (Option CancelKey × CancelHandle) × Registry Target
  begin fill version reg =
      let key = fill (key_len version) in
      let slot = length reg.slots in
      (
        (some (record { bytes = key }), record { slot = slot; on_drop = some key }),
        record { sessions = insert key slot reg.sessions; slots = reg.slots ++ none ∷ [] },
      )

  -- `NoCancellation::begin`: a slot that no key leads to.
  unfoldable pub begin_disabled :
      Registry Target → (Option CancelKey × CancelHandle) × Registry Target
  begin_disabled reg = (
    (none, record { slot = length reg.slots; on_drop = none }),
    record reg { slots = reg.slots ++ none ∷ [] },
  )

  -- `CancelHandle::set`
  unfoldable pub set : CancelHandle → Target → Registry Target → Registry Target
  set h target reg = record reg { slots = set_slot h.slot (some target) reg.slots }

  -- `CancelHandle::clear`
  unfoldable pub clear : CancelHandle → Registry Target → Registry Target
  clear h reg = record reg { slots = set_slot h.slot none reg.slots }

  abbrev pub deregister : Option Bytes → Registry Target → Registry Target
  deregister none reg = reg
  deregister (some key) reg = record reg { sessions = remove key reg.sessions }

  -- `Drop` of a handle.
  unfoldable pub drop_handle : CancelHandle → Registry Target → Registry Target
  drop_handle h reg = deregister h.on_drop reg

  abbrev pub target_of : Option ℕ → List (Option Target) → Option Target
  target_of none slots = none
  target_of (some slot) slots = get_or slots slot none

  -- `RegistryCancellation::cancel`: the target that it runs, if any.
  unfoldable pub cancel : CancelKey → Registry Target → Option Target
  cancel key reg = target_of (lookup key.bytes reg.sessions) reg.slots
