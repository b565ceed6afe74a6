-- ===== src/Layout.antt =====
-- src/layout.rs: the layout tree, its checksum, and its text form, parsed and rendered.
-- The proofs are in the modules below this one.
pub mod Tree
pub mod Checksum
pub mod Parse
pub use Tree.{
  Layout, Layouts, leaf, split_h, split_v, nil, cons, render, render_children, to_layout_string,
}
pub use Checksum.{checksum}
pub use Parse.{parse}
