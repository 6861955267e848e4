-- ===== src/Ownership/Tests.antt =====
-- Small runs of the client, and each theorem at one of them.
use enterprise_netsec_iac.Common.{
  ◌≡◌, refl, true, false, List, [], ◌∷◌, contains, error, adapter_error, ◌||◌,
}
use enterprise_netsec_iac.Ownership.{
  Peer, calm, lost_after, tag, added, add_soc_blocklist_address, remove_soc_blocklist_address,
}
use enterprise_netsec_iac.Ownership.Rows.{held, held_by, held_by_others, without}
use enterprise_netsec_iac.Ownership.Kept.{
  Request, add, remove, probe, serve, foreign_entry_kept, entry_owned,
}
use enterprise_netsec_iac.Ownership.Released.{
  add_confirms, add_intent_first, remove_last_owner, remove_spares_others,
}

abbrev fresh : Peer
fresh = record { rows = []; foreign_entries = []; members = []; weather = [] }

-- An analyst has blocked the address by hand.
abbrev analyst : Peer
analyst = record fresh { members = "192.0.2.7" ∷ [] }

abbrev two_owners : List Request
two_owners =
    add "192.0.2.7" "idemp-1"
    ∷ add "192.0.2.7" "idemp-2"
    ∷ remove "192.0.2.7" "idemp-1"
    ∷ remove "192.0.2.7" "idemp-2"
    ∷ probe "192.0.2.7"
    ∷ []

two_owners_leave_nothing : (serve two_owners fresh).members ≡ []
unfolding serve
two_owners_leave_nothing = refl

abbrev stormy : Peer
stormy = record fresh { weather = calm ∷ lost_after ∷ [] }

lost_answer :
    (add_soc_blocklist_address "192.0.2.7" "idemp-1" stormy).0 ≡ error adapter_error "timeout"
unfolding add_soc_blocklist_address
lost_answer = refl

foreign_entry_kept_example : contains "192.0.2.7" (serve two_owners analyst).members ≡ true
foreign_entry_kept_example = foreign_entry_kept "192.0.2.7" two_owners analyst refl refl

abbrev one_add : List Request
one_add = add "192.0.2.7" "idemp-1" ∷ []

entry_owned_example : held "192.0.2.7" (serve one_add stormy).rows ≡ true
unfolding serve
entry_owned_example = entry_owned "192.0.2.7" one_add stormy refl refl refl

add_confirms_example :
    let p' = (add_soc_blocklist_address "192.0.2.7" "idemp-1" fresh).1 in
    (contains "192.0.2.7" p'.members ≡ true) × (held_by "192.0.2.7" "idemp-1" p'.rows ≡ true)
unfolding add_soc_blocklist_address
add_confirms_example = add_confirms "192.0.2.7" "idemp-1" fresh {t = tag added "idemp-1"} refl

add_intent_first_example :
    held_by "192.0.2.7" "idemp-1" (add_soc_blocklist_address "192.0.2.7" "idemp-1" stormy).1.rows
    ≡ true
unfolding add_soc_blocklist_address
add_intent_first_example = add_intent_first "192.0.2.7" "idemp-1" stormy refl refl

abbrev blocked : Peer
blocked = (serve one_add fresh)

remove_last_owner_example :
    let p' = (remove_soc_blocklist_address "192.0.2.7" "idemp-1" blocked).1 in
    (held_by "192.0.2.7" "idemp-1" blocked.rows ≡ true)
    × ((held_by_others "192.0.2.7" "idemp-1" blocked.rows
          || contains "192.0.2.7" blocked.foreign_entries)
        ≡ false)
    × (contains "192.0.2.7" p'.members ≡ false)
    × (held "192.0.2.7" p'.rows ≡ false)
unfolding remove_soc_blocklist_address serve
remove_last_owner_example = remove_last_owner "192.0.2.7" "idemp-1" blocked refl

abbrev manual : Peer
manual = serve one_add analyst

remove_spares_others_example :
    let p' = (remove_soc_blocklist_address "192.0.2.7" "idemp-1" manual).1 in
    (p'.members ≡ manual.members)
    × (p'.weather ≡ manual.weather)
    × (without "192.0.2.7" "idemp-1" p'.rows ≡ without "192.0.2.7" "idemp-1" manual.rows)
unfolding remove_soc_blocklist_address serve
remove_spares_others_example = remove_spares_others "192.0.2.7" "idemp-1" manual refl
