-- ===== src/VcardSync.antt =====
-- internal/vcardsync/merge.go: the merge of vCards, property by property.
pub mod Fields
pub mod Overlay
pub mod ThreeWay
pub mod Strings
