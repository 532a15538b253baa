-- ===== src/Terminal.antt =====
-- src/main.cpp: the terminal interface, as state machines over keys. What is drawn is modelled where
-- it decides what can be seen or chosen; colours and windows are not.
pub mod Dialog
pub mod Sorting
pub mod Chosen
pub mod Window
pub mod Height
pub mod Menu
pub mod Status
pub mod Reached
pub mod Written
pub mod Preview
pub mod Tree
pub mod Listed
