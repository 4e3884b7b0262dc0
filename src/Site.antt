-- ===== src/Site.antt =====
-- docs/conf.py: what it adds to the build of the documentation by Sphinx. A function of Sphinx or docutils is a parameter
-- where it is called.
pub mod Paths
pub mod Redirects
pub mod Distinct
pub mod Pages
pub mod Accepted
pub mod Branches
pub mod Known
