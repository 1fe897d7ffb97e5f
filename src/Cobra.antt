-- ===== src/Cobra.antt =====
-- The cobra adapters of package cli: positional arguments and flag values.
pub mod Args
pub mod Values
