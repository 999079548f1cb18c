-- ===== src/Sim/Adding/Arrivals.antt =====
-- The ids after `addTorrent`.
use transmission_ui.Prelude.{ℕ, ◌≡◌, refl, ap, ◌∙◌, Option, none, some, List, [], ◌∷◌, ◌++◌}
use transmission_ui.Types.Detail.{TorrentDetail}
use transmission_ui.Sim.{SimState}
use transmission_ui.Sim.Edit.{FileMarks}
use transmission_ui.Sim.Derive.{renumber_queue}
use transmission_ui.Sim.Queue.{ids}
use transmission_ui.Sim.Adding.Names.{AddArgs, Parts, named}
use transmission_ui.Sim.Adding.{
  AddResult, torrent_added, torrent_duplicate, pushed, add_unless, add_torrent, hash_or_random,
  with_hash_string, created,
}
use transmission_ui.Sim.Handlers.Kept.{ids-renumber_queue, ids-promote_queue}

-- The id of the torrent that was added, if one was.
abbrev pub arrivals_of : AddResult → List ℕ
arrivals_of (torrent_added id name hash) = id ∷ []
arrivals_of (torrent_duplicate id name hash) = []

-- `ks` behind `is`.
abbrev pub joined_by : List ℕ → List ℕ → List ℕ
joined_by [] is = is
joined_by (k ∷ ks) is = is ++ k ∷ ks

ids-snoc : (ts : List TorrentDetail) (t : TorrentDetail) → ids (ts ++ t ∷ []) ≡ ids ts ++ t.id ∷ []
ids-snoc [] t = refl
ids-snoc (u ∷ ts) t = ap (◌∷◌ u.id) (ids-snoc ts t)

ids-add_unless :
    (o : Option TorrentDetail) (now : ℕ) (t : TorrentDetail) (s : SimState)
    → ids (add_unless o now t s).1.torrents
      ≡ joined_by (arrivals_of (add_unless o now t s).0) (ids s.torrents)
unfolding add_unless pushed
ids-add_unless (some dup) now t s = refl
ids-add_unless none now t s =
    ids-promote_queue s.session now (renumber_queue (s.torrents ++ t ∷ []))
    ∙ (ids-renumber_queue (s.torrents ++ t ∷ []) ∙ ids-snoc s.torrents t)

-- The torrent that the answer names comes last.
pub ids-add_torrent :
    (p : Parts) (args : AddArgs) (marks : FileMarks) (now : ℕ) (s : SimState)
    → ids (add_torrent p args marks now s).1.torrents
      ≡ joined_by (arrivals_of (add_torrent p args marks now s).0) (ids s.torrents)
unfolding add_torrent
ids-add_torrent p args marks now s =
    let n = named p args in
    let drawn = hash_or_random n.hash s.rand in
    ids-add_unless (with_hash_string drawn.0 s.torrents) now (created p args marks now s n drawn.0)
      (record s { rand = drawn.1 })
