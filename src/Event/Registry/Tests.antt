-- ===== src/Event/Registry/Tests.antt =====
-- Runs of the registry.
use qaiosplus.Base.{◌≡◌, refl, [], ◌∷◌, some, none, first_from}
use qaiosplus.Event.Registry.{
  Registry, empty_entry, register_service, unregister_service, on_svc_msg, name_hash, hash_from,
  place_service,
}

abbrev none_yet : Registry
none_yet = record { entries = λ i. empty_entry; next_id = 1 }

-- The hash of one letter, from the published test vectors of FNV-1a.
name_hash_run : name_hash (97 ∷ []) ≡ 0xe40c292c
unfolding name_hash hash_from
name_hash_run = refl

abbrev one : Registry
one = (register_service none_yet (97 ∷ []) 5 6).0

call_run : on_svc_msg one (name_hash (97 ∷ [])) ≡ some (5, 6)
unfolding on_svc_msg register_service place_service name_hash hash_from first_from
call_run = refl

again_run : (register_service one (97 ∷ []) 7 8).1 ≡ 0
unfolding register_service place_service name_hash hash_from first_from
again_run = refl

gone_run : on_svc_msg (unregister_service one 1).0 (name_hash (97 ∷ [])) ≡ none
unfolding on_svc_msg unregister_service register_service place_service name_hash hash_from
    first_from
gone_run = refl
