-- ===== src/Lexer.antt =====
-- searchengine/internal/lexer/lexer.cpp and the stop words of utils/stopwords: how a line becomes
-- the words of the index, and how the workers and `OnStop` end the stream of words.
pub mod Text
pub mod Words
pub mod Split
pub mod Shutdown
pub mod Sound
pub mod Stream
pub mod Tests
