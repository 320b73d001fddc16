-- ===== src/Runs/Shutdown.antt =====
-- What `finalizeRunOnShutdown` does to a run (apps/orchestrator/src/run-shutdown.ts).
