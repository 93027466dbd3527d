-- ===== src/Release.antt =====
-- LLVM_SCUDO_MTE/release.h: pages without a block in use go back to the operating system. The page
-- map counts, for each page, the free blocks that touch it (`PageMap`); the tracker joins pages into
-- ranges (`Tracker`), which a recorder takes (`Recorder`); the pool keeps the buffers (`Pool`); the
-- context marks free blocks (`Context`), and the release walks the pages (`Walk`). A page has
-- 2 ^ `page_size_log` bytes.
pub mod PageMap
pub mod Recorder
pub mod Tracker
pub mod Pool
pub mod Context
pub mod Walk
