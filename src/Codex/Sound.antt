-- ===== src/Codex/Sound.antt =====
-- web/codex.js: what holds over a session.
