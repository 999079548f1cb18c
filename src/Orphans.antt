-- ===== src/Orphans.antt =====
-- ui/src/api/orphans.ts: the shapes of the backend's orphan finder.
pub mod Scan
mod Tests
use transmission_ui.Prelude.{ℕ, Bool, List, Option, Text}

pub record OrphanChild : Type 0 where
  pub name : Text
  pub dir : Bool
  pub size : ℕ
  pub files : ℕ

pub data OrphanKind : Type 0 where
  file dir symlink state : OrphanKind

pub record Orphan : Type 0 where
  pub id : Text
  pub group : Text
  pub path : Text
  pub kind : OrphanKind
  pub size : ℕ
  pub files : ℕ
  pub mtime : ℕ
  pub flags : Option (List Text)
  pub inside : Option Text
  pub match : Option Text
  pub name : Option Text
  pub hash : Option Text
  pub types : Option (List (Text × ℕ))
  pub children : Option (List OrphanChild)

pub record OrphanScan : Type 0 where
  pub scan_id : Text
  pub at : ℕ
  pub took_ms : ℕ
  pub looked : ℕ
  pub hidden_kept : ℕ
  pub warnings : Option (List Text)
  pub entries : List Orphan
