-- ===== src/Examples/Sources.antt =====
-- Trackers and piece lengths.
