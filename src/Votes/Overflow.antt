-- ===== src/Votes/Overflow.antt =====
-- What the decision of src/routes.rs does with 256 cosigners and more, whose number does not fit the
-- `u8` that it is cast to.
