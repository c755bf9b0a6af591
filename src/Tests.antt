-- ===== src/Tests.antt =====
-- Concrete inputs on which the theorems of the other modules are applied.
mod Samples
mod BinderExamples
mod HeaderExamples
mod StreamExamples
mod ChecksumExamples
mod LoggerExamples
mod HttpStreamExamples
mod HttpExamples
mod CryptoExamples
mod Client
mod MqttExamples
mod SubscribeExamples
