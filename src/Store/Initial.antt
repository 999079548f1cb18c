-- ===== src/Store/Initial.antt =====
-- The first snapshot of ui/src/state/store.ts: what the address bar and the local storage say, and
-- nothing from the daemon yet.
use transmission_ui.Prelude.{true, false, List, [], Option, none, Text}
use transmission_ui.Prelude.Int.{pos}
use transmission_ui.Store.{World, no_dialog, connecting, overview}
use transmission_ui.Store.Url.{Query, view_of}
use transmission_ui.Store.Layout.{Finite, initial_sidebar_w, initial_density}

-- What the local storage holds: the dismissed notices, the density, the sidebar's width.
pub record Stored : Type 0 where
  pub dismissed : List Text
  pub density : Text
  pub sidebar_w : Option Finite

unfoldable pub initial : Query → Stored → World
initial q st =
    let v = view_of q in
    record {
      snap = record {
        torrents = [];
        by_id = [];
        detail = none;
        session = none;
        stats = none;
        history = [];
        free_space = [];
        connection = connecting;
        last_error = [];
        filter = v.filter;
        adv = v.adv;
        search = [];
        sort = v.sort;
        sort_dir = pos 1;
        selected = [];
        focus_id = v.focus_id;
        inspector_tab = overview;
        dialog = no_dialog;
        dismissed = st.dismissed;
        toast = [];
        removing = none;
        density = initial_density st.density;
        sidebar_w = initial_sidebar_w st.sidebar_w;
      };
      poll = record {
        timer = none;
        armed = [];
        next_handle = 0;
        ticks = 0;
        force_full = true;
        in_flight = false;
        poll_again = false;
        session_fresh = false;
        passes = [];
      };
      view_order = [];
      removal_token = 0;
      toast_timer = false;
      query = q;
      stored_dismissed = st.dismissed;
      details = [];
      spaces = [];
      runs = [];
      sent = [];
    }
