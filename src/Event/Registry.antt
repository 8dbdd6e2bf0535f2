-- ===== src/Event/Registry.antt =====
-- The service registry, QEvent/src/QKServiceRegistry.cpp: services by the hash of their name. A name
-- is the list of its bytes; the copy of it that an entry keeps for debugging is left out. A handler is
-- a number, 0 the null pointer.
mod Tests
use qaiosplus.Base.{
  ℕ, ◌+◌, ◌*◌, Bool, true, false, not, ◌&&◌, ◌||◌, List, [], ◌∷◌, Option, none, some, ◌==◌,
  if◌then◌else◌, update, u32, bit_xor, first_from,
}

pub record Entry : Type 0 where
  pub used : Bool
  pub id : ℕ
  pub hash : ℕ
  pub handler : ℕ
  pub user_data : ℕ

abbrev pub empty_entry : Entry
empty_entry = record { used = false; id = 0; hash = 0; handler = 0; user_data = 0 }

abbrev pub max_services : ℕ
max_services = 64

pub record Registry : Type 0 where
  pub entries : ℕ → Entry
  pub next_id : ℕ

-- FNV-1a, from the value `h` on.
pub hash_from : ℕ → List ℕ → ℕ
hash_from h [] = h
hash_from h (b ∷ bs) = hash_from (u32 (bit_xor h b * 16777619)) bs

pub name_hash : List ℕ → ℕ
unfolding hash_from
name_hash name = hash_from 2166136261 name

abbrev pub has_hash : Registry → ℕ → ℕ → Bool
has_hash r h i = (r.entries i).used && ((r.entries i).hash == h)

-- The second loop of `registerService`.
place_service : Registry → ℕ → ℕ → ℕ → Registry × ℕ
place_service r h handler user_data =
    elim (first_from max_services 0 (λ i. not (r.entries i).used)) [
      | none ↦ (r, 0)
      | some i ↦ (
        record r {
          entries = update r.entries i (record {
            used = true;
            id = r.next_id;
            hash = h;
            handler = handler;
            user_data = user_data;
          });
          next_id = u32 (r.next_id + 1);
        },
        r.next_id,
      )
    ]

-- On a registry that is initialized: the new registry and the service's id; 0 is failure.
pub register_service : Registry → List ℕ → ℕ → ℕ → Registry × ℕ
unfolding place_service name_hash
register_service r name handler user_data =
    let h = name_hash name in
    let registered : Registry × ℕ = elim (first_from max_services 0 (has_hash r h)) [
      | none ↦ place_service r h handler user_data
      | some i ↦ (r, 0)
    ] in
    if (handler == 0) || (h == 0) then (r, 0) else registered

pub unregister_service : Registry → ℕ → Registry × Bool
unregister_service r id =
    let dropped : Registry × Bool =
      elim (first_from max_services 0 (λ i. (r.entries i).used && ((r.entries i).id == id))) [
        | none ↦ (r, false)
        | some i ↦ (record r { entries = update r.entries i empty_entry }, true)
      ] in
    if id == 0 then (r, false) else dropped

-- The call that `onSvcMsg` makes for a target, if any: the handler and its user data.
pub on_svc_msg : Registry → ℕ → Option (ℕ × ℕ)
on_svc_msg r target =
    let called : Option (ℕ × ℕ) = elim (first_from max_services 0 (has_hash r target)) [
      | none ↦ none
      | some i ↦
          if (r.entries i).handler == 0
          then none
          else some ((r.entries i).handler, (r.entries i).user_data)
    ] in
    if target == 0 then none else called
