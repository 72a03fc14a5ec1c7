-- ===== src/Driver/Lifecycle/Vanished.antt =====
-- The failure path of `astral_attach` when the client has gone away under it.
