-- ===== src/Web/Mappings/Races/Alone.antt =====
-- A handler that nothing interrupts does what it does as one step.
use gotaxy.Prelude.{String, ◌≡◌, refl, true, not, ◌&&◌, some, arith, Bool-cases, inl, inr}
use gotaxy.Session.{get_mapping, update_enable, close_mapping, has}
use gotaxy.Storage.{Engine}
use gotaxy.Server.{GotaxyServer}
use gotaxy.Control.{mapping_of}
use gotaxy.Session.View.{IsLinked}
use gotaxy.Control.Pointers.{found-cases, mapping_of-update_enable, pointer}
use gotaxy.Web.{Status}
use gotaxy.Web.Mappings.{
  ToggleRequest, MappingRequest, enable_mapping, disable_mapping, toggle_mapping_handler,
  add_mapping_handler, insert_mapping, delete_mapping_handler, update_mapping_handler,
  store_mapping,
}
use gotaxy.Web.Mappings.Races.{
  toggles, enables, closes, adds, deletes, updates, answered, Request, toggle, add, update, delete,
  begins, advance, alone, inspect, compare, is_rejected,
}

module _ {Db : Type 0} (engine : Engine Db) where
  -- The handler of a request as one step.
  abbrev pub at_once : Request → GotaxyServer Db → GotaxyServer Db × Status
  at_once (toggle req) s = toggle_mapping_handler (some req) s
  at_once (add req) s = add_mapping_handler engine (some req) s
  at_once (update req) s = update_mapping_handler engine (some req) s
  at_once (delete name) s = delete_mapping_handler engine (some name) s

module _ {Db : Type 0} (engine : Engine Db) (s : GotaxyServer Db)
    (linked : IsLinked s.sessions) where
  add-alone :
      (req : MappingRequest)
      → alone engine 4 (adds req) s ≡ (
        (add_mapping_handler engine (some req) s).0,
        answered (add_mapping_handler engine (some req) s).1,
      )
  unfolding alone advance add_mapping_handler insert_mapping is_rejected
  add-alone req = ground arith

  delete-alone :
      (name : String)
      → alone engine 4 (deletes name) s ≡ (
        (delete_mapping_handler engine (some name) s).0,
        answered (delete_mapping_handler engine (some name) s).1,
      )
  unfolding alone advance delete_mapping_handler inspect
  delete-alone name = elim (found-cases s.sessions name linked) [
    | inl e ↦ ground (arith, e)
    | inr (r, x, e, seen) ↦ ground (arith, e, seen)
  ]

  update-alone :
      (req : MappingRequest)
      → alone engine 4 (updates req) s ≡ (
        (update_mapping_handler engine (some req) s).0,
        answered (update_mapping_handler engine (some req) s).1,
      )
  unfolding alone advance update_mapping_handler compare store_mapping
  update-alone req = elim (found-cases s.sessions req.name linked) [
    | inl e ↦ ground (arith, e)
    | inr (r, x, e, seen) ↦ ground (arith, e, seen)
  ]

  enable-alone :
      (name : String)
      → alone engine 3 (enables name) s
        ≡ ((enable_mapping name s).0, answered (enable_mapping name s).1)
  unfolding alone advance enable_mapping get_mapping update_enable has
  enable-alone name = elim (found-cases s.sessions name linked) [
    | inl e ↦ ground (arith, e)
    | inr (r, x, e, seen) ↦
        let (kept, found) =
          mapping_of-update_enable s.sessions name r x (rw (e, mapping_of) (rw seen)) true in
        ground (arith, kept, found, pointer (update_enable s.sessions name true).0 name r _ kept)
  ]

  disable-alone :
      (name : String)
      → alone engine 3 (closes name) s
        ≡ ((disable_mapping name s).0, answered (disable_mapping name s).1)
  unfolding alone advance disable_mapping close_mapping get_mapping
  disable-alone name = elim (found-cases s.sessions name linked) [
    | inl e ↦ ground (arith, e)
    | inr (r, x, e, seen) ↦ ground (arith, e, seen)
  ]

  toggle-alone :
      (req : ToggleRequest)
      → alone engine 4 (toggles req) s ≡ (
        (toggle_mapping_handler (some req) s).0,
        answered (toggle_mapping_handler (some req) s).1,
      )
  unfolding alone advance toggle_mapping_handler
  toggle-alone req = elim (Bool-cases (not s.is_run && req.enable)) [
    | inl stopped ↦ rw stopped refl
    | inr runs ↦ elim (Bool-cases req.enable) [
      | inl on ↦ rw (runs, on) (enable-alone req.name)
      | inr off ↦ rw (runs, off) (disable-alone req.name)
    ]
  ]

  -- Four calls of a handler that nothing interrupts, in a server whose table has no dangling pointer,
  -- do to it and answer what the handler does as one step: no request needs more, and none panics.
  pub alone-at_once :
      (request : Request)
      → alone engine 4 (begins request) s
        ≡ ((at_once engine request s).0, answered (at_once engine request s).1)
  unfolding begins
  alone-at_once (toggle req) = toggle-alone req
  alone-at_once (add req) = add-alone req
  alone-at_once (update req) = update-alone req
  alone-at_once (delete name) = delete-alone name
