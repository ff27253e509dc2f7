-- ===== src/Tests.antt =====
-- The theorems at concrete inputs, and small runs of the code, a file for each group of parts.
mod Network
mod Choice
mod Database
mod Control
mod Web
mod Loops
