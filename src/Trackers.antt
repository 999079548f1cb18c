-- ===== src/Trackers.antt =====
-- ui/src/lib/trackers.ts: the name a tracker is known by. Lower case is that of ASCII, as hosts are.
pub mod Suffixes
use transmission_ui.Prelude.{
  leb, ◌==◌, if◌then◌else◌, or_else, length, Text, codes, is_empty, ℕ, zero, suc, ◌+◌, Bool, ◌&&◌,
  Option, none, some, List, [], ◌∷◌, arith,
}
use transmission_ui.Prelude.Keyed.{nat_eq, text_eq_inst, lookup}

abbrev pub dot : ℕ
dot = b'.'

abbrev pub tracker_names : List (Text × Text)
tracker_names =
    (codes "opentrackr.org", codes "OpenTrackr")
    ∷ (codes "openbittorrent.com", codes "OpenBitTorrent")
    ∷ (codes "torrent.eu.org", codes "Torrent.eu.org")
    ∷ (codes "stealth.si", codes "Stealth")
    ∷ (codes "tiny-vps.com", codes "Tiny-VPS")
    ∷ (codes "dler.org", codes "Dler")
    ∷ (codes "ipv6tracker.org", codes "IPv6Tracker")
    ∷ (codes "debian.org", codes "Debian")
    ∷ (codes "blender.org", codes "Blender")
    ∷ (codes "archive.org", codes "Archive.org")
    ∷ (codes "ubuntu.com", codes "Ubuntu")
    ∷ (codes "linuxtracker.org", codes "LinuxTracker")
    ∷ (codes "fedoraproject.org", codes "Fedora")
    ∷ (codes "nyaa.si", codes "Nyaa")
    ∷ (codes "tokyotosho.info", codes "TokyoTosho")
    ∷ (codes "anidex.moe", codes "AniDex")
    ∷ (codes "landof.tv", codes "BroadcasTheNet")
    ∷ (codes "passthepopcorn.me", codes "PassThePopcorn")
    ∷ (codes "flacsfor.me", codes "Redacted")
    ∷ (codes "redacted.ch", codes "Redacted")
    ∷ (codes "myanonamouse.net", codes "MyAnonamouse")
    ∷ (codes "stackoverflow.tech", codes "IPTorrents")
    ∷ (codes "empirehost.me", codes "IPTorrents")
    ∷ (codes "bgp.technology", codes "IPTorrents")
    ∷ (codes "iptorrents.com", codes "IPTorrents")
    ∷ (codes "opsfet.ch", codes "Orpheus")
    ∷ (codes "orpheus.network", codes "Orpheus")
    ∷ (codes "animebytes.tv", codes "AnimeBytes")
    ∷ (codes "avistaz.to", codes "AvistaZ")
    ∷ (codes "cinemaz.to", codes "CinemaZ")
    ∷ (codes "privatehd.to", codes "PrivateHD")
    ∷ (codes "beyond-hd.me", codes "Beyond-HD")
    ∷ (codes "blutopia.cc", codes "Blutopia")
    ∷ (codes "digitalcore.club", codes "DigitalCore")
    ∷ (codes "gazellegames.net", codes "GGn")
    ∷ (codes "hdts-announce.ru", codes "HDTorrents")
    ∷ (codes "torrentleech.org", codes "TorrentLeech")
    ∷ (codes "tleechreload.org", codes "TorrentLeech")
    ∷ (codes "tv-vault.me", codes "TV-Vault")
    ∷ (codes "torrentdb.net", codes "TorrentDB")
    ∷ (codes "cartoonchaos.org", codes "CartoonChaos")
    ∷ (codes "alpharatio.cc", codes "AlphaRatio")
    ∷ (codes "filelist.io", codes "FileList")
    ∷ (codes "hd-space.org", codes "HD-Space")
    ∷ (codes "morethantv.me", codes "MoreThanTV")
    ∷ (codes "nebulance.io", codes "Nebulance")
    ∷ (codes "scenehd.org", codes "SceneHD")
    ∷ (codes "torrentday.com", codes "TorrentDay")
    ∷ (codes "ncore.pro", codes "nCore")
    ∷ (codes "superbits.org", codes "Superbits")
    ∷ (codes "immortalseed.me", codes "ImmortalSeed")
    ∷ (codes "milkie.cc", codes "Milkie")
    ∷ (codes "speedapp.io", codes "SpeedApp")
    ∷ (codes "hdbits.org", codes "HDBits")
    ∷ (codes "ptfiles.net", codes "PTFiles")
    ∷ (codes "funfile.org", codes "FunFile")
    ∷ (codes "bit-hdtv.com", codes "Bit-HDTV")
    ∷ (codes "torrentbytes.net", codes "TorrentBytes")
    ∷ (codes "revolutiontt.me", codes "RevolutionTT")
    ∷ []

-- `s.toLowerCase()`
abbrev pub lower : Text → Text
lower [] = []
lower (c ∷ s) = (if leb b'A' c && leb c b'Z' then c + 32 else c) ∷ lower s

-- `s.replace(/\.$/, "")`
abbrev pub trim_dot : Text → Text
trim_dot [] = []
trim_dot (c ∷ []) = if c == dot then [] else c ∷ []
trim_dot (c ∷ d ∷ s) = c ∷ trim_dot (d ∷ s)

-- `h.slice(h.indexOf(".") + 1)`, with `none` where the text has no dot.
unfoldable pub after_dot : Text → Option Text
after_dot [] = none
after_dot (c ∷ s) = if c == dot then some s else after_dot s

-- `if (hit) return hit`, else what follows.
abbrev pub hit : Option Text → Option Text → Option Text
hit none later = later
hit (some name) later = if is_empty name then later else some name

-- The `while` loop, on fuel.
unfoldable pub name_from : List (Text × Text) → ℕ → Text → Option Text
unfolding after_dot
name_from names zero h = none
name_from names (suc f) h = elim (after_dot h) [
  | none ↦ none
  | some rest ↦ hit (lookup h names) (name_from names f rest)
]

-- Each round takes at least a dot off, so the length is fuel enough.
unfoldable pub tracker_name : Text → Text
unfolding name_from
tracker_name host =
    let h = trim_dot (lower host) in or_else (name_from tracker_names (suc (length h)) h) host
