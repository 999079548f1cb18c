-- ===== src/Store/Actions.antt =====
-- The actions of ui/src/state/store.ts that the components call, but the bulk removal.
use transmission_ui.Prelude.{
  ℕ, ◌==◌, Bool, true, false, ◌&&◌, List, [], ◌∷◌, ◌++◌, Option, none, some, Text, codes,
  if◌then◌else◌, all,
}
use transmission_ui.Prelude.Keyed.{nat_eq, text_eq_inst, contains, add, add_all}
use transmission_ui.Store.{World, Extra, InspectorTab}
use transmission_ui.Store.Url.{sync_url}
use transmission_ui.Store.Detail.{refresh_detail}
use transmission_ui.Store.Polling.{refresh_now}

-- One timer for the one slot: a second toast takes the timer over.
unfoldable pub toast : Text → World → World
toast msg w = record w { snap = record (w.snap) { toast = msg }; toast_timer = true }

-- The timer's callback.
unfoldable pub toast_expires : World → World
toast_expires w = record w { snap = record (w.snap) { toast = [] }; toast_timer = false }

-- `id === snap.detail?.id`: null is not undefined.
abbrev pub keeps_detail : Option ℕ → Option Extra → Option Extra
keeps_detail none d = none
keeps_detail (some n) none = none
keeps_detail (some n) (some d) = if d.id == n then some d else none

unfoldable pub focus : Option ℕ → World → World
focus id w = refresh_detail true (
    sync_url (record w {
      snap = record (w.snap) { focus_id = id; detail = keeps_detail id w.snap.detail };
    }))

unfoldable pub set_inspector_tab : InspectorTab → World → World
set_inspector_tab tab w =
    refresh_detail false (record w { snap = record (w.snap) { inspector_tab = tab } })

-- How a call of the daemon ended.
pub data Reply : Type 0 where
  done : Reply
  error : Text → Reply

-- `run`, once its call has ended.
unfoldable pub run_ends : Text → Reply → World → World
run_ends label done w = refresh_now w
run_ends label (error msg) w = toast (label ++ codes " failed: " ++ msg) w

unfoldable pub set_view_order : List ℕ → World → World
set_view_order ids w = record w { view_order = ids }

abbrev pub is_nonempty {ℓ} : {A : Type ℓ} → List A → Bool
is_nonempty [] = false
is_nonempty (x ∷ xs) = true

-- Select everything the list shows; with all of it selected, clear.
unfoldable pub select_all_visible : World → World
select_all_visible w =
    let ids = w.view_order in
    record w {
      snap = record (w.snap) {
        selected =
            if is_nonempty ids && all (λ i. contains i w.snap.selected) ids
            then []
            else add_all [] ids;
      };
    }

-- `writeLocal` does nothing where the storage refuses.
unfoldable pub dismiss_notice : Bool → Text → World → World
dismiss_notice writable key w =
    let d = add key w.snap.dismissed in
    record w {
      snap = record (w.snap) { dismissed = d };
      stored_dismissed = if writable then d else w.stored_dismissed;
    }
