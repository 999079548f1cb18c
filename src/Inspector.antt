-- ===== src/Inspector.antt =====
-- The computations of ui/src/inspector/Inspector.tsx, apart from what it renders.
pub mod Pieces
