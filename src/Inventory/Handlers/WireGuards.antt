-- ===== src/Inventory/Handlers/WireGuards.antt =====
-- service/device_management.go: WireGuard templates and their peers.
use singboxconfig.Prelude.{Str, Bool, not, ◌&&◌, Option, none, some, if◌then◌else◌}
use singboxconfig.Prelude.Int.{ℤ, pos, eqb_ℤ, ltb_ℤ}
use singboxconfig.Prelude.Exec.{pure, raise, ◌>>=◌, ◌>>◌}
use singboxconfig.Prelude.Sort.{Sorting, ltb_text}
use singboxconfig.Entity.{WireGuard, WireGuardPeer}
use singboxconfig.Inventory.Methods.{
  create_wire_guard, get_wire_guard, list_wire_guards, update_wire_guard, delete_wire_guard,
  create_wire_guard_peer, list_wire_guard_peers, update_wire_guard_peer, delete_wire_guard_peer,
}
use singboxconfig.Inventory.Handlers.Answers.{
  one_wire_guard, all_wire_guards, one_peer, all_peers, deleted, bad_request, Body, Handler,
  or_missing, or_failed, must_be_new, bind, refuse_if, differs,
}

unfoldable pub post_wire_guard : Option WireGuard → Handler Body
post_wire_guard body = do
  item ← bind body
  must_be_new (get_wire_guard item.tag)
  or_failed (create_wire_guard item)
  pure (one_wire_guard item)

unfoldable pub fetch_wire_guard : Str → Handler Body
fetch_wire_guard tag = do item ← or_missing (get_wire_guard tag); pure (one_wire_guard item)

abbrev pub wire_guard_before : WireGuard → WireGuard → Bool
wire_guard_before a b = if eqb_ℤ a.sort b.sort then ltb_text a.tag b.tag else ltb_ℤ a.sort b.sort

unfoldable pub fetch_wire_guards : Sorting WireGuard → Handler Body
fetch_wire_guards sorting = do
  rows ← or_failed list_wire_guards
  pure (all_wire_guards (sorting.sort_slice wire_guard_before rows))

unfoldable pub put_wire_guard : Str → Option WireGuard → Handler Body
put_wire_guard path body = do
  item ← bind body
  refuse_if (differs path item.tag)
  or_missing (update_wire_guard item)
  pure (one_wire_guard item)

unfoldable pub remove_wire_guard : Str → Handler Body
remove_wire_guard tag = do or_missing (delete_wire_guard tag); pure deleted

unfoldable pub post_peer : Str → Option WireGuardPeer → Handler Body
post_peer tag body = do
  wg ← or_missing (get_wire_guard tag)
  item ← bind body
  refuse_if (differs item.wire_guard_tag tag)
  stored ← or_failed (create_wire_guard_peer (record item { wire_guard_tag = tag }))
  pure (one_peer (record item { wire_guard_tag = tag; id = stored.id }))

abbrev pub peer_sorted_before : WireGuardPeer → WireGuardPeer → Bool
peer_sorted_before a b = if eqb_ℤ a.sort b.sort then ltb_ℤ a.id b.id else ltb_ℤ a.sort b.sort

unfoldable pub fetch_peers : Sorting WireGuardPeer → Str → Handler Body
fetch_peers sorting tag = do
  wg ← or_missing (get_wire_guard tag)
  rows ← or_failed (list_wire_guard_peers sorting tag)
  pure (all_peers (sorting.sort_slice peer_sorted_before rows))

-- The id of the path is parsed by `strconv.ParseInt`: `none` where there is none, else the result.
unfoldable pub with_path_id : Option (Option ℤ) → WireGuardPeer → Handler WireGuardPeer
with_path_id none item = pure item
with_path_id (some none) item = raise bad_request
with_path_id (some (some id)) item = do
  refuse_if (not (eqb_ℤ item.id (pos 0)) && not (eqb_ℤ item.id id))
  pure (record item { id = id })

unfoldable pub put_peer : Str → Option (Option ℤ) → Option WireGuardPeer → Handler Body
put_peer tag path_id body = do
  wg ← or_missing (get_wire_guard tag)
  item ← bind body
  refuse_if (differs item.wire_guard_tag tag)
  peer ← with_path_id path_id (record item { wire_guard_tag = tag })
  or_missing (update_wire_guard_peer peer)
  pure (one_peer peer)

unfoldable pub remove_peer : Str → Option ℤ → Handler Body
remove_peer tag path_id = do
  wg ← or_missing (get_wire_guard tag)
  id ← bind path_id
  or_missing (delete_wire_guard_peer id)
  pure deleted
