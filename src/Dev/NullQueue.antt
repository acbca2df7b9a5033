-- ===== src/Dev/NullQueue.antt =====
-- A work queue that cannot be made: `create_singlethread_workqueue` gives the null pointer then, which
-- `lbz_iosched_init` does not test for.
