-- ===== src/Containers.antt =====
-- The standard containers as the book uses them: `HashMap`, `HashSet` and `BTreeMap`.
pub mod HashMap
pub mod TreeMap
