-- ===== src/Optparse/Settings.antt =====
-- Command lines of settings, then arguments.
