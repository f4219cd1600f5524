-- ===== src/Tests/Replies.antt =====
-- The answer to a poll of a node with one queued job.
