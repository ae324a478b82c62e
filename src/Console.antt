-- ===== src/Console.antt =====
-- The logic of the console's pages: exam-env/server/src/app. What a page shows is a text or a number;
-- the markup around it, and the framework that draws it again when a signal changes, are left out.
pub mod Time
pub mod Texts
pub mod Widgets
pub mod Fleet
pub mod Form
pub mod Board
pub mod Activity
