-- ===== src/Routes/Post.antt =====
-- `post_operation` of src/routes.rs.
pub mod Form
pub mod Save
